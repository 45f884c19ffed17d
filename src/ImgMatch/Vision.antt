-- ===== src/ImgMatch/Vision.antt =====
-- OpenCV and the files behind it, as the class calls them. Images, descriptors and distances are
-- types of the library.
use painting_cps.Prelude.{ℕ, Bool, List, Option}
use painting_cps.CText.{Bytes}

-- A row of `knnSearch` with two neighbours: the index of the nearest descriptor and the distances of
-- both.
pub record Neighbours (Distance : Type 0) : Type 0 where
  pub nearest : ℕ
  pub first : Distance
  pub second : Distance

pub record Vision (Image Descriptor Distance : Type 0) : Type 0 where
  -- none where the image has no data
  pub imread : Bytes → Option Image
  -- detection and extraction of the key points, for a Hessian threshold
  pub extract : ℕ → Image → List Descriptor
  pub knn_search : List Descriptor → List Descriptor → List (Neighbours Distance)
  -- `first < second * 0.8f`
  pub is_distinct : Distance → Distance → Bool
  -- `freq < .015 * count` in floating point
  pub below_share : ℕ → ℕ → Bool
