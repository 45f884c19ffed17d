-- ===== src/Storm/Match.antt =====
-- ImgMatch.cpp and JniImageMatching.cpp of storm/src/jvm/storm/winlab/cps (storm-kafka has the same
-- files): the matcher of the server, on a picture in memory, with a text as its answer. In the
-- `Vision` of this module `below_share` stands for `freq < .02 * count`, and `imdecode` for the
-- library's function, which gives an image without data where the bytes are no picture.
use painting_cps.Prelude.{
  ℕ, ◌-◌, ◌≡◌, refl, ap, List, [], ◌∷◌, ◌++◌, Option, none, some, ◌==◌, if◌then◌else◌, arith, inl,
  inr, length, append-nil,
}
use painting_cps.Exec.{Result, ok, fault, bind, null_pointer, Result-cases}
use painting_cps.CText.{Bytes, codes, print_nat, slice, digits}
use painting_cps.CText.Copies.{slice-behind}
use painting_cps.ImgMatch.Vision.{Vision}
use painting_cps.ImgMatch.Database.{vector_at}
use painting_cps.ImgMatch.Vote.{ImgFreq, max_freq, last_with, tally}
use painting_cps.ImgMatch.Match.{ImgMatch, decide, match_img}

abbrev pub no_match_text : Bytes
no_match_text = codes "0,0,0,0,0,0,0,0,0,"

-- `to_string(matchedImgIndex)` with eight zeros behind it.
unfoldable pub output : ℕ → Bytes
output matched_img_index = print_nat matched_img_index ++ codes ",0,0,0,0,0,0,0,0,"

-- The constructor: the threshold is set for all objects.
unfoldable pub new_matcher : {D : Type 0} → ImgMatch D → ImgMatch D
new_matcher m = record m { min_hessian = 1500 }

module _ {Image Descriptor Distance : Type 0} (v : Vision Image Descriptor Distance) where
  -- The end of `matchImg`: the winner of the vote, its share, and the text.
  unfoldable pub answer_text :
      ImgMatch Descriptor → List ImgFreq → Result (ImgMatch Descriptor × Bytes)
  unfolding vector_at output
  answer_text m img_freq =
      let most = max_freq 1 img_freq in
      let winner = last_with most 0 img_freq in
      let matched = record m { matched_img_index = winner } in
      if winner == 0
      then ok (matched, output winner)
      else bind (vector_at m.dsc_cnt (winner - 1)) (λ count. ok (
          if v.below_share most count
          then (record m { matched_img_index = 0 }, no_match_text)
          else (matched, output winner)))

  -- `matchImg(img, size)`. For a picture without data it returns `NULL` as a `string`.
  unfoldable pub match_text :
      (Bytes → Option Image)
      → Bytes
      → ℕ
      → ImgMatch Descriptor
      → Result (ImgMatch Descriptor × Bytes)
  match_text imdecode img size m = bind (slice img 0 size) λ jpgbytes. elim (imdecode jpgbytes) [
    | none ↦ fault null_pointer
    | some src_img ↦ elim (v.extract m.min_hessian src_img) [
      | [] ↦ ok (record m { matched_img_index = 0 }, no_match_text)
      | row ∷ rows ↦
          bind (tally v m.index_img [] (v.knn_search m.feature_cluster (row ∷ rows)))
            (λ img_freq. answer_text m img_freq)
    ]
  ]

  -- `matchingIndex` of the Java interface, on the whole array that Java passes.
  unfoldable pub matching_index :
      (Bytes → Option Image) → Bytes → ImgMatch Descriptor → Result (ImgMatch Descriptor × Bytes)
  unfolding new_matcher
  matching_index imdecode img m = match_text imdecode img (length img) (new_matcher m)

no_match-output : no_match_text ≡ output 0
unfolding output print_nat digits
no_match-output = refl

slice-whole : (img : Bytes) → slice img 0 (length img) ≡ ok img
slice-whole img = rw (append-nil img) at (slice-behind [] img [] 0 (length img) refl refl)

module _ {Image Descriptor Distance : Type 0} (v : Vision Image Descriptor Distance) where
  -- An answer is the text of the index that the server's matcher decides on.
  answer_text-decide :
      (m : ImgMatch Descriptor) (img_freq : List ImgFreq)
      → answer_text v m img_freq
        ≡ bind
            (decide v m.dsc_cnt img_freq)
            (λ index. ok (record m { matched_img_index = index }, output index))
  unfolding answer_text decide
  answer_text-decide m img_freq = ground (arith, no_match-output)

  match_img-read :
      (m : ImgMatch Descriptor) (add : Bytes) (src : Image)
      → v.imread add ≡ some src
      → match_img v add m
        ≡ elim (v.extract m.min_hessian src) as (λ _. Result (ImgMatch Descriptor)) [
          | [] ↦ ok (record m { matched_img_index = 0 })
          | row ∷ rows ↦
              bind
                (tally v m.index_img [] (v.knn_search m.feature_cluster (row ∷ rows)))
                (λ img_freq.
                  bind
                    (decide v m.dsc_cnt img_freq)
                    (λ index. ok (record m { matched_img_index = index })))
        ]
  unfolding match_img
  match_img-read m add src read = rw (match_img, read) refl

  answers_match :
      (m : ImgMatch Descriptor) (ds : List Descriptor)
      → elim ds as (λ _. Result (ImgMatch Descriptor × Bytes)) [
        | [] ↦ ok (record m { matched_img_index = 0 }, no_match_text)
        | row ∷ rows ↦
            bind
              (tally v m.index_img [] (v.knn_search m.feature_cluster (row ∷ rows)))
              (λ img_freq. answer_text v m img_freq)
      ]
        ≡ bind
            (elim ds as (λ _. Result (ImgMatch Descriptor)) [
              | [] ↦ ok (record m { matched_img_index = 0 })
              | row ∷ rows ↦
                  bind
                    (tally v m.index_img [] (v.knn_search m.feature_cluster (row ∷ rows)))
                    (λ img_freq.
                      bind
                        (decide v m.dsc_cnt img_freq)
                        (λ index. ok (record m { matched_img_index = index })))
            ])
            (λ n. ok (n, output n.matched_img_index))
  answers_match m [] =
      ap (λ (t : Bytes). ok (record m { matched_img_index = 0 }, t)) no_match-output
  answers_match m (d ∷ ds) =
      elim (Result-cases (tally v m.index_img [] (v.knn_search m.feature_cluster (d ∷ ds)))) [
        | inl (f, e) ↦
            rw (e, answer_text-decide m f)
              (elim (Result-cases (decide v m.dsc_cnt f)) [
                | inl (i, g) ↦ rw g refl
                | inr (x, g) ↦ rw g refl
              ])
        | inr (x, e) ↦ rw e refl
      ]

  -- On a picture that both decode, Storm's matchImg decides, throws and fails as the server's does
  -- with Storm's share of descriptors, and its text is the index with eight zeros behind it.
  pub match_text-match_img :
      (imdecode : Bytes → Option Image) (img add : Bytes) (src : Image) (m : ImgMatch Descriptor)
      → imdecode img ≡ some src
      → v.imread add ≡ some src
      → match_text v imdecode img (length img) m
        ≡ bind (match_img v add m) (λ n. ok (n, output n.matched_img_index))
  unfolding match_text
  match_text-match_img imdecode img add src m decoded read =
      rw (slice-whole img, decoded, match_img-read m add src read)
        (answers_match m (v.extract m.min_hessian src))
