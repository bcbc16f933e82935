-- ===== src/Perception/Analyzer/Bounds.antt =====
-- calculateQueueLength(): the cluster of vehicles that is measured.
use native.Mathlib.Decide.{ℕ_discrete}
use adaptive_traffic_light.Prelude.{
  ℕ, zero, suc, ◌+◌, ◌-◌, ◌≤◌, ◌<◌, ◌≡◌, refl, ◌⊎◌, inl, inr, Bool, true, false, ◌&&◌, if-elim,
  List, length, arith,
}
use adaptive_traffic_light.Perception.Vision.{VisionOps}
use adaptive_traffic_light.Perception.Analyzer.{
  Clusters, span, update_best_cluster, cluster_loop, no_cluster, best_cluster,
}

le_or_lt : (a b : ℕ) → (a ≤ b) ⊎ (b < a)
le_or_lt a b = ground arith

module _ (ops : VisionOps) where
  open ops use {F, less, mul, decimal}

  -- The gap between a vehicle and the one before it ends a cluster.
  abbrev pub is_cut : List (F × F) → F → F → ℕ → Bool
  is_cut vehicles average gap i =
      less (decimal 0 1) average && less gap (span ops vehicles (i - 1) i)

  -- The vehicles from the first index to the second: they exist, and for an average height above zero
  -- no gap between neighbours is larger than `gap`.
  pub record IsCluster (vehicles : List (F × F)) (average gap : F) (start end : ℕ) : Type 0 where
    pub ordered : start ≤ end
    pub inside : end < length vehicles
    pub together :
        (j : ℕ)
        → start < j
        → j ≤ end
        → less (decimal 0 1) average ≡ true
        → less gap (span ops vehicles (j - 1) j) ≡ false

  record IsKept (vehicles : List (F × F)) (average gap : F) (i : ℕ) (c : Clusters ops)
      : Type 0 where
    best : IsCluster vehicles average gap c.best_start c.best_end
    current : IsCluster vehicles average gap c.current_start i
    cut : (c.current_start ≡ 0) ⊎ (is_cut vehicles average gap c.current_start ≡ true)
    longest :
        (start end : ℕ)
        → IsCluster vehicles average gap start end
        → end < c.current_start
        → end - start ≤ c.best_end - c.best_start

  -- No cluster that ends at `i` or before it is longer than the best one.
  abbrev IsLongest : List (F × F) → F → F → ℕ → Clusters ops → Type 0
  IsLongest vehicles average gap i c =
      (start end : ℕ)
      → IsCluster vehicles average gap start end
      → end ≤ i
      → end - start ≤ c.best_end - c.best_start

  -- A cluster that reaches behind a cut starts there or later.
  behind_cut :
      (vehicles : List (F × F)) (average gap : F) (c : Clusters ops) (start end : ℕ)
      → (c.current_start ≡ 0) ⊎ (is_cut vehicles average gap c.current_start ≡ true)
      → IsCluster vehicles average gap start end
      → c.current_start ≤ end
      → c.current_start ≤ start
  behind_cut vehicles average gap c start end (inl z) k h = omega (arith, z)
  behind_cut vehicles average gap c start end (inr t) k h = elim (le_or_lt c.current_start start) [
    | inl l ↦ l
    | inr l ↦ absurd (ground (arith, t, k.together c.current_start l h))
  ]

  one_vehicle :
      (vehicles : List (F × F)) (average gap : F) (i : ℕ)
      → i < length vehicles
      → IsCluster vehicles average gap i i
  one_vehicle vehicles average gap i h = record {
    ordered = omega arith;
    inside = h;
    together = λ j l m a. absurd (omega arith);
  }

  update_best_cluster-IsKept :
      (vehicles : List (F × F)) (average gap : F) (i : ℕ) (c : Clusters ops)
      → IsKept vehicles average gap i c
      → IsKept vehicles average gap i (update_best_cluster ops vehicles c.current_start i c)
  unfolding update_best_cluster
  update_best_cluster-IsKept vehicles average gap i c k =
      if-elim (IsKept vehicles average gap i) _
        (λ t. record {
          best = k.current;
          current = k.current;
          cut = k.cut;
          longest = λ s e l m. ground (arith, t, k.longest s e l m);
        })
        (λ _. k)

  update_best_cluster-IsLongest :
      (vehicles : List (F × F)) (average gap : F) (i : ℕ) (c : Clusters ops)
      → IsKept vehicles average gap i c
      → IsLongest vehicles average gap i (update_best_cluster ops vehicles c.current_start i c)
  unfolding update_best_cluster
  update_best_cluster-IsLongest vehicles average gap i c k start end l h =
      ground (arith, h, k.longest start end l, k.current.ordered, before)
    where
      before : c.current_start ≤ end → c.current_start ≤ start
      before = behind_cut vehicles average gap c start end k.cut l

  grown :
      (vehicles : List (F × F)) (average gap : F) (start last i : ℕ)
      → i ≡ suc last
      → i < length vehicles
      → is_cut vehicles average gap i ≡ false
      → IsCluster vehicles average gap start last
      → IsCluster vehicles average gap start i
  grown vehicles average gap start last i e h cut k = record {
    ordered = omega (arith, k.ordered);
    inside = h;
    together = λ j l m a. at j l m a (ℕ_discrete j i);
  }
    where
      at :
          (j : ℕ)
          → start < j
          → j ≤ i
          → less (decimal 0 1) average ≡ true
          → Dec (j ≡ i)
          → less gap (span ops vehicles (j - 1) j) ≡ false
      at j l m a (yes p) = rw p (ground (arith, a, cut))
      at j l m a (no p) = k.together j l (omega arith) a

  cluster_loop-IsKept :
      (vehicles : List (F × F)) (average gap : F) (n i last : ℕ) (c : Clusters ops)
      → i ≡ suc last
      → i + n ≡ length vehicles
      → IsKept vehicles average gap last c
      → IsKept vehicles average gap
          (length vehicles - 1)
          (cluster_loop ops vehicles average gap n i c)
  unfolding cluster_loop
  cluster_loop-IsKept vehicles average gap zero i last c e h k =
      let same : last ≡ length vehicles - 1 = omega arith in rw (← same) k
  cluster_loop-IsKept vehicles average gap (suc n) i last c e h k =
      cluster_loop-IsKept vehicles average gap n (i + 1) i _ (omega arith) (omega arith) (
        if-elim (IsKept vehicles average gap i) (is_cut vehicles average gap i)
          (λ t. record {
            best = closed.best;
            current = one_vehicle vehicles average gap i inside;
            cut = inr t;
            longest = λ s f l m. all_closed s f l (omega (arith, m));
          })
          (λ f. record {
            best = k.best;
            current = grown vehicles average gap c.current_start last i e inside f k.current;
            cut = k.cut;
            longest = k.longest;
          }))
    where
      inside : i < length vehicles
      inside = omega arith

      before : last ≡ i - 1
      before = omega arith

      closed :
          IsKept vehicles average gap last
            (update_best_cluster ops vehicles c.current_start (i - 1) c)
      closed = rw (← before) (update_best_cluster-IsKept vehicles average gap last c k)

      all_closed :
          IsLongest vehicles average gap
            (i - 1)
            (update_best_cluster ops vehicles c.current_start (i - 1) c)
      all_closed = rw (← before) (update_best_cluster-IsLongest vehicles average gap last c k)

  -- The cluster that calculateQueueLength() measures, for at least one vehicle: its first and last
  -- index are indices of the vector, in this order; if the average height is above zero, no gap
  -- between two neighbours of it is larger than one and a half times that height; and no other run of
  -- neighbours with such gaps has more vehicles.
  pub best_cluster-IsCluster :
      (vehicles : List (F × F)) (average : F)
      → 0 < length vehicles
      → let c = best_cluster ops vehicles average in
        IsCluster vehicles average (mul (decimal 15 1) average) c.best_start c.best_end
        × ((start end : ℕ)
            → IsCluster vehicles average (mul (decimal 15 1) average) start end
            → end - start ≤ c.best_end - c.best_start)
  unfolding best_cluster
  best_cluster-IsCluster vehicles average h = (
    (update_best_cluster-IsKept vehicles average gap (length vehicles - 1) _ looped).best,
    λ s e l.
        update_best_cluster-IsLongest vehicles average gap (length vehicles - 1) _ looped s e l
          (omega (arith, l.inside)),
  )
    where
      gap : F
      gap = mul (decimal 15 1) average

      looped :
          IsKept vehicles average gap
            (length vehicles - 1)
            (cluster_loop ops vehicles average gap (length vehicles - 1) 1 (no_cluster ops))
      looped =
          cluster_loop-IsKept vehicles average gap (length vehicles - 1) 1 0 (no_cluster ops)
            (omega arith) (omega arith)
            record {
              best = one_vehicle vehicles average gap 0 h;
              current = one_vehicle vehicles average gap 0 h;
              cut = inl refl;
              longest = λ s e l m. absurd (omega (arith, m));
            }
