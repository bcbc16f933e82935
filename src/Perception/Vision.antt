-- ===== src/Perception/Vision.antt =====
-- What the perception process takes from OpenCV, from the inference backend and from the platform's
-- 32-bit floating-point numbers, and the data that core/types.h and inference_result.h build on them.
use adaptive_traffic_light.Prelude.{ℕ, Bool, List, ℤ}

-- cv::Point and cv::Rect.
pub record Point : Type 0 where
  pub x : ℤ
  pub y : ℤ

pub record Rect : Type 0 where
  pub x : ℤ
  pub y : ℤ
  pub width : ℤ
  pub height : ℤ

pub record Roi : Type 0 where
  pub points : List Point

pub record Detection (F : Type 0) : Type 0 where
  pub box : Rect
  pub class_id : ℤ
  pub confidence : F
  pub class_name : List ℕ
  pub is_vehicle : Bool
  pub is_emergency : Bool

pub record InferenceResult (F : Type 0) : Type 0 where
  pub lane_id : ℕ
  pub detections : List (Detection F)

-- `of_int` and `of_count` are the casts, `decimal m k` is the literal m / 10^k, `sort` is std::sort()
-- by the first component. `bounding_rect`, `intersection` and `inside` are cv::boundingRect(),
-- the operator & and the test `pointPolygonTest(...) >= 0`. `roi_pixels` counts the pixels that
-- fillPoly() sets in a mask of the given size, `occupied_pixels` those of them that the boxes cover.
pub record VisionOps : Type 1 where
  pub F : Type 0
  pub add : F → F → F
  pub sub : F → F → F
  pub mul : F → F → F
  pub div : F → F → F
  pub less : F → F → Bool
  pub of_int : ℤ → F
  pub of_count : ℕ → F
  pub decimal : ℕ → ℕ → F
  pub sort : List (F × F) → List (F × F)
  pub bounding_rect : List Point → Rect
  pub intersection : Rect → Rect → Rect
  pub inside : List Point → F → F → Bool
  pub roi_pixels : List Point → Rect → ℕ
  pub occupied_pixels : List Point → Rect → List Rect → ℕ
