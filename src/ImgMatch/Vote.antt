-- ===== src/ImgMatch/Vote.antt =====
-- The vote of `matchImg`: each distinct descriptor votes for the image of its nearest neighbour.
use painting_cps.Prelude.{ℕ, ◌+◌, List, [], ◌∷◌, ◌++◌, Bool, false, ◌||◌, ◌==◌, ltb, if◌then◌else◌}
use painting_cps.Exec.{Result, ok, bind}
use painting_cps.ImgMatch.Vision.{Vision, Neighbours}
use painting_cps.ImgMatch.Database.{vector_at}

pub record ImgFreq : Type 0 where
  pub img_index : ℕ
  pub freq : ℕ

-- The loop over `imgFreq`, which goes on after a hit.
unfoldable pub bump : ℕ → List ImgFreq → List ImgFreq
bump img_num [] = []
bump img_num (t ∷ ts) =
    (if t.img_index == img_num then record t { freq = t.freq + 1 } else t) ∷ bump img_num ts

unfoldable pub find_img_num : ℕ → List ImgFreq → Bool
find_img_num img_num [] = false
find_img_num img_num (t ∷ ts) = t.img_index == img_num || find_img_num img_num ts

unfoldable pub add_vote : List ImgFreq → ℕ → List ImgFreq
add_vote img_freq img_num =
    if find_img_num img_num img_freq
    then bump img_num img_freq
    else bump img_num img_freq ++ record { img_index = img_num; freq = 1 } ∷ []

unfoldable pub max_freq : ℕ → List ImgFreq → ℕ
max_freq m [] = m
max_freq m (t ∷ ts) = max_freq (if ltb m t.freq then t.freq else m) ts

-- The last image with that many votes.
unfoldable pub last_with : ℕ → ℕ → List ImgFreq → ℕ
last_with m index [] = index
last_with m index (t ∷ ts) = last_with m (if t.freq == m then t.img_index else index) ts

module _ {Image Descriptor Distance : Type 0} (v : Vision Image Descriptor Distance) where
  -- The loop over the rows that the search returns; `index_IMG.at` may throw.
  unfoldable pub tally : List ℕ → List ImgFreq → List (Neighbours Distance) → Result (List ImgFreq)
  tally index_img img_freq [] = ok img_freq
  tally index_img img_freq (row ∷ rows) =
      let voted =
        bind (vector_at index_img row.nearest) (λ n. tally index_img (add_vote img_freq n) rows) in
      let skipped = tally index_img img_freq rows in
      if v.is_distinct row.first row.second then voted else skipped
