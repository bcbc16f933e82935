-- ===== src/Perception/InferenceEngine/Filters.antt =====
-- runOneCycle(): which detections the two filters leave.
use adaptive_traffic_light.Prelude.{
  ◌≡◌, ◌≢◌, ◌⊎◌, inl, inr, not, true, if-elim, List, [], ◌∷◌, length, ◌==◌, ◌+ℤ◌, arith,
}
use adaptive_traffic_light.Perception.Vision.{Roi, Detection, VisionOps}
use adaptive_traffic_light.Perception.InferenceEngine.{
  vehicles_only, in_roi, in_roi_only, roi_filter,
}

module _ (ops : VisionOps) where
  open ops use {F, add as plus, mul, of_int, decimal, inside}

  -- A vehicle of which the middle of the lower edge lies in the region, where there is one.
  abbrev pub IsSeen : Roi → Detection F → Type 0
  IsSeen roi d =
      (d.is_vehicle ≡ true)
      × ((length roi.points ≡ 0)
          ⊎ (inside roi.points (plus (of_int d.box.x) (mul (of_int d.box.width) (decimal 5 1)))
                (of_int (d.box.y +ℤ d.box.height))
              ≡ true))

  -- The detections that are seen, in their order.
  pub data Filtered (roi : Roi) : List (Detection F) → List (Detection F) → Type 0 where
    no_more : Filtered roi [] []
    kept :
        (d : Detection F) {ds rest : List (Detection F)}
        → IsSeen roi d
        → Filtered roi ds rest
        → Filtered roi (d ∷ ds) (d ∷ rest)
    left_out :
        (d : Detection F) {ds rest : List (Detection F)}
        → (IsSeen roi d → ⊥)
        → Filtered roi ds rest
        → Filtered roi (d ∷ ds) rest

  without_region :
      (roi : Roi) (dets : List (Detection F))
      → length roi.points ≡ 0
      → Filtered roi dets (vehicles_only ops dets)
  without_region roi [] h = no_more
  without_region roi (d ∷ ds) h =
      if-elim (Filtered roi (d ∷ ds)) d.is_vehicle
        (λ v. kept d (v, inl h) (without_region roi ds h))
        (λ v. left_out d (λ s. absurd (ground (arith, s, v))) (without_region roi ds h))

  in_region :
      (roi : Roi) (dets : List (Detection F))
      → length roi.points ≢ 0
      → Filtered roi dets (in_roi_only ops roi (vehicles_only ops dets))
  in_region roi [] h = no_more
  in_region roi (d ∷ ds) h =
      if-elim (λ xs. Filtered roi (d ∷ ds) (in_roi_only ops roi xs)) d.is_vehicle
        (λ v.
          if-elim (Filtered roi (d ∷ ds)) (in_roi ops roi d)
            (λ i. kept d (v, inr i) (in_region roi ds h))
            (λ i. left_out d (λ s. absurd (ground (arith, s, i, h))) (in_region roi ds h)))
        (λ v. left_out d (λ s. absurd (ground (arith, s, v))) (in_region roi ds h))

  pub roi_filter-Filtered :
      (roi : Roi) (dets : List (Detection F))
      → Filtered roi dets (roi_filter ops roi (vehicles_only ops dets))
  roi_filter-Filtered roi dets =
      if-elim (Filtered roi dets) (not (length roi.points == 0))
        (λ e. in_region roi dets (ground (arith, e)))
        (λ e. without_region roi dets (ground (arith, e)))
