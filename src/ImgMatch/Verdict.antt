-- ===== src/ImgMatch/Verdict.antt =====
-- What `matchImg` answers: the image with the most votes, or none.
use painting_cps.Prelude.{
  ℕ, ◌-◌, ◌≤◌, ◌≡◌, ◌≢◌, refl, List, [], ◌∷◌, some, arith, length, get_elem?-some, if◌then◌else◌,
}
use painting_cps.Exec.{ok}
use painting_cps.CText.{Bytes}
use painting_cps.ImgMatch.Vision.{Vision}
use painting_cps.ImgMatch.Database.{vector_at}
use painting_cps.ImgMatch.Counting.{AllPositive}
use painting_cps.ImgMatch.Vote.{ImgFreq, max_freq, last_with, find_img_num}
use painting_cps.ImgMatch.Winner.{count, Tallied, ballots, tally-Tallied, winner-count, le-max_freq}
use painting_cps.ImgMatch.Match.{ImgMatch, decide, match_img}

count-positive : (w : ℕ) (vs : List ℕ) → AllPositive vs → 1 ≤ count w vs → 1 ≤ w
count-positive w [] h k = absurd (omega arith)
count-positive w (x ∷ vs) h k = ground (arith, count-positive w vs h.1)

Tallied-nil : Tallied [] []
Tallied-nil = record { exact = tt; complete = λ n e. refl }

some_entry : (n : ℕ) (vs : List ℕ) (ts : List ImgFreq) → Tallied (n ∷ vs) ts → ts ≢ []
unfolding find_img_num
some_entry n vs [] h e = ground (arith, h.complete n refl)
some_entry n vs (t ∷ ts) h e = cc

module _ {Image Descriptor Distance : Type 0} (v : Vision Image Descriptor Distance) where
  decide_lem :
      (dsc_cnt vs : List ℕ) (ts : List ImgFreq)
      → Tallied vs ts
      → ts ≢ []
      → AllPositive vs
      → ((n : ℕ) → 1 ≤ count n vs → n ≤ length dsc_cnt)
      → (w c : ℕ) × (vector_at dsc_cnt (w - 1) ≡ ok c)
        × (decide v dsc_cnt ts ≡ ok (if v.below_share (count w vs) c then 0 else w))
        × ((n : ℕ) → count n vs ≤ count w vs)
  unfolding decide
  decide_lem dsc_cnt vs ts h ne all known =
      let most = max_freq 1 ts in
      let w = last_with most 0 ts in
      let (hit, best) = winner-count vs ts h ne in
      let present : 1 ≤ count w vs = omega (arith, hit, le-max_freq 1 ts) in
      let positive = count-positive w vs all present in
      let (c, at) = get_elem?-some dsc_cnt (w - 1) (omega (arith, known w present)) in
      (w, c, ground (arith, at), ground (arith, at, hit), λ n. omega (arith, best n, hit))

  -- A picture that is read, has descriptors and gets votes, all of them for images in the table of
  -- descriptor numbers, is given an image with the most votes, or 0 if those are too small a share
  -- of that image's descriptors.
  pub match_img_lem :
      (add : Bytes) (m : ImgMatch Descriptor) (src : Image) (d : Descriptor) (ds : List Descriptor)
      (n : ℕ) (ns : List ℕ)
      → v.imread add ≡ some src
      → v.extract m.min_hessian src ≡ d ∷ ds
      → ballots v.is_distinct m.index_img (v.knn_search m.feature_cluster (d ∷ ds)) ≡ ok (n ∷ ns)
      → AllPositive (n ∷ ns)
      → ((k : ℕ) → 1 ≤ count k (n ∷ ns) → k ≤ length m.dsc_cnt)
      → (w c : ℕ) × (vector_at m.dsc_cnt (w - 1) ≡ ok c)
        × (match_img v add m
            ≡ ok (record m {
              matched_img_index = if v.below_share (count w (n ∷ ns)) c then 0 else w;
            }))
        × ((k : ℕ) → count k (n ∷ ns) ≤ count w (n ∷ ns))
  unfolding match_img
  match_img_lem add m src d ds n ns read found cast all known =
      let rows = v.knn_search m.feature_cluster (d ∷ ds) in
      let (ts, done, good) = tally-Tallied v m.index_img rows [] (n ∷ ns) [] Tallied-nil cast in
      let (w, c, at, decided, best) =
        decide_lem m.dsc_cnt (n ∷ ns) ts good (some_entry n ns ts good) all known in
      (w, c, at, ground (arith, done, decided), best)
