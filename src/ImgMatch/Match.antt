-- ===== src/ImgMatch/Match.antt =====
-- `matchImg(srcImgAdd)` and the accessors.
use painting_cps.Prelude.{
  ℕ, zero, suc, ◌-◌, ◌++◌, ℤ, pos, negsuc, List, [], ◌∷◌, none, some, ◌==◌, if◌then◌else◌,
}
use painting_cps.Exec.{Result, ok, bind}
use painting_cps.CText.{Bytes}
use painting_cps.ImgMatch.Vision.{Vision}
use painting_cps.ImgMatch.Database.{vector_at}
use painting_cps.ImgMatch.Vote.{ImgFreq, max_freq, last_with, tally}

-- The static members that `init_matchImg` fills, and the object's own.
pub record ImgMatch (Descriptor : Type 0) : Type 0 where
  pub index_img : List ℕ
  pub dsc_cnt : List ℕ
  pub feature_cluster : List Descriptor
  pub min_hessian : ℕ
  pub matched_img_index : ℕ

-- `init_matchImg`: the numbers of both files are put behind those that are there.
unfoldable pub init_match_img : {D : Type 0} → List ℕ → List ℕ → List D → ImgMatch D → ImgMatch D
init_match_img index_table dsc_numbers cluster m = record m {
  index_img = m.index_img ++ index_table;
  dsc_cnt = m.dsc_cnt ++ dsc_numbers;
  feature_cluster = cluster;
}

-- `set_minHessian` takes a positive value only.
unfoldable pub set_min_hessian : {D : Type 0} → ℤ → ImgMatch D → ImgMatch D
set_min_hessian (pos zero) m = m
set_min_hessian (pos (suc n)) m = record m { min_hessian = suc n }
set_min_hessian (negsuc n) m = m

-- `set_dbSize` likewise; the first value is `size_DB`.
unfoldable pub set_db_size : ℤ → ℤ → ℤ
set_db_size size_db (pos zero) = size_db
set_db_size size_db (pos (suc n)) = pos (suc n)
set_db_size size_db (negsuc n) = size_db

unfoldable pub get_matched_img_index : {D : Type 0} → ImgMatch D → ℕ
get_matched_img_index m = m.matched_img_index

module _ {Image Descriptor Distance : Type 0} (v : Vision Image Descriptor Distance) where
  -- The winner, unless its votes are too small a share of its descriptors.
  unfoldable pub decide : List ℕ → List ImgFreq → Result ℕ
  unfolding vector_at
  decide dsc_cnt img_freq =
      let most = max_freq 1 img_freq in
      let winner = last_with most 0 img_freq in
      if winner == 0
      then ok 0
      else bind (vector_at dsc_cnt (winner - 1))
          (λ count. ok (if v.below_share most count then 0 else winner))

  -- The value of `matchedImgIndex` behind the call: 0 where no image matches.
  unfoldable pub match_img : Bytes → ImgMatch Descriptor → Result (ImgMatch Descriptor)
  match_img src_img_add m = elim (v.imread src_img_add) [
    | none ↦ ok (record m { matched_img_index = 0 })
    | some src_img ↦ elim (v.extract m.min_hessian src_img) [
      | [] ↦ ok (record m { matched_img_index = 0 })
      | row ∷ rows ↦
          bind (tally v m.index_img [] (v.knn_search m.feature_cluster (row ∷ rows))) (λ img_freq.
            bind (decide m.dsc_cnt img_freq) (λ index. ok (record m { matched_img_index = index })))
    ]
  ]
