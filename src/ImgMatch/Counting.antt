-- ===== src/ImgMatch/Counting.antt =====
-- The counting loop counts the descriptors of each image if every image has one, and goes wrong at
-- the first image that has none.
use painting_cps.Prelude.{
  ℕ, zero, suc, ◌+◌, ◌-◌, ◌≤◌, ◌≡◌, ◌≢◌, refl, List, [], ◌∷◌, ◌++◌, some, arith, length,
  length-append, get_elem?, set, replicate, append_assoc, append-nil, get_elem?-append_last,
  get_elem?-some, length_pos,
}
use painting_cps.Exec.{ok}
use painting_cps.ImgMatch.Database.{Counts, count_round, count_rounds, no_counts}

-- The image of each descriptor, for the numbers of descriptors of the images `i`, `i + 1`, ….
abbrev pub blocks : ℕ → List ℕ → List ℕ
blocks i [] = []
blocks i (r ∷ rs) = replicate r i ++ blocks (i + 1) rs

abbrev pub AllPositive : List ℕ → Type 0
AllPositive [] = Unit {0}
AllPositive (r ∷ rs) = (1 ≤ r) × AllPositive rs

-- The state after the images whose numbers are `done`.
abbrev after : List ℕ → List ℕ → Counts
after index done = record {
  index_img = index;
  dsc_cnt = done;
  last_index = length done;
  img_count = length done;
}

set-last : (xs : List ℕ) (a b : ℕ) → set (xs ++ a ∷ []) (length xs) b ≡ xs ++ b ∷ []
set-last [] a b = refl
set-last (x ∷ xs) a b = λ i. x ∷ set-last xs a b i

-- One more descriptor of the last image.
count_round-same :
    (index done : List ℕ) (n : ℕ)
    → count_round (after index (done ++ n ∷ [])) (length done + 1)
      ≡ ok (after (index ++ (length done + 1) ∷ []) (done ++ (n + 1) ∷ []))
unfolding count_round
count_round-same index done n = ground (
  arith,
  length-append done (n ∷ []),
  length-append done ((n + 1) ∷ []),
  get_elem?-append_last done n,
  set-last done n (n + 1),
)

last_count : (done : List ℕ) → done ≢ [] → (n : ℕ) × (get_elem? done (length done - 1) ≡ some n)
last_count done h = get_elem?-some done (length done - 1) (omega (arith, length_pos done h))

-- A descriptor of another image than the last: it is booked to the next image, whatever its entry.
count_round-next :
    (index done : List ℕ) (t : ℕ)
    → t ≢ length done
    → count_round (after index done) t
      ≡ ok (after (index ++ (length done + 1) ∷ []) (done ++ 1 ∷ []))
unfolding count_round
count_round-next index [] t h = ground arith
count_round-next index (n ∷ done) t h =
    let (m, e) = last_count (n ∷ done) (λ p. cc) in
    ground (arith, e, length-append (n ∷ done) (1 ∷ []))

-- The rest of an image's descriptors.
count_rounds-same :
    (k n : ℕ) (index done ts : List ℕ)
    → count_rounds (after index (done ++ n ∷ [])) (replicate k (length done + 1) ++ ts)
      ≡ count_rounds (after (index ++ replicate k (length done + 1)) (done ++ (n + k) ∷ [])) ts
unfolding count_rounds
count_rounds-same zero n index done ts = ground (arith, append-nil index)
count_rounds-same (suc k) n index done ts = ground (
  arith,
  count_round-same index done n,
  count_rounds-same k (n + 1) (index ++ (length done + 1) ∷ []) done ts,
  append_assoc index ((length done + 1) ∷ []) (replicate k (length done + 1)),
)

count_rounds-blocks :
    (rs done index : List ℕ)
    → AllPositive rs
    → count_rounds (after index done) (blocks (length done + 1) rs)
      ≡ ok (after (index ++ blocks (length done + 1) rs) (done ++ rs))
unfolding count_rounds
count_rounds-blocks [] done index h = ground (arith, append-nil index, append-nil done)
count_rounds-blocks (zero ∷ rs) done index h = absurd (omega arith)
count_rounds-blocks (suc k ∷ rs) done index (_, h) =
    let i = length done + 1 in
    let done' = done ++ suc k ∷ [] in
    let index' = (index ++ i ∷ []) ++ replicate k i in
    ground (
      arith,
      count_round-next index done i (λ e. omega arith),
      count_rounds-same k 1 (index ++ i ∷ []) done (blocks (i + 1) rs),
      count_rounds-blocks rs done' index' h,
      length-append done (suc k ∷ []),
      append_assoc (index ++ i ∷ []) (replicate k i) (blocks (i + 1) rs),
      append_assoc index (i ∷ []) (replicate k i ++ blocks (i + 1) rs),
      append_assoc done (suc k ∷ []) rs,
    )

-- If every image has a descriptor, the counting loop gives each image its number of descriptors
-- and leaves the index table as it was.
pub count_rounds_lem :
    (rs : List ℕ)
    → AllPositive rs
    → count_rounds no_counts (blocks 1 rs)
      ≡ ok (record {
        index_img = blocks 1 rs;
        dsc_cnt = rs;
        last_index = length rs;
        img_count = length rs;
      })
count_rounds_lem rs h = count_rounds-blocks rs [] [] h

-- Where the first of three images has descriptors, the second none and the third two or more, the
-- counting loop books one descriptor of the third to it.
pub count_rounds-gap :
    (a b : ℕ)
    → (c : Counts) × (count_rounds no_counts (blocks 1 (suc a ∷ 0 ∷ suc (suc b) ∷ [])) ≡ ok c)
      × (c.dsc_cnt ≡ suc a ∷ 1 ∷ suc b ∷ [])
unfolding count_rounds
count_rounds-gap a b =
    let first = (1 ∷ []) ++ replicate a 1 in
    let index = (first ++ 2 ∷ []) ++ 3 ∷ [] in
    (
      after (index ++ replicate b 3) (suc a ∷ 1 ∷ suc b ∷ []),
      ground (
        arith,
        count_round-next [] [] 1 (λ e. omega arith),
        count_rounds-same a 1 (1 ∷ []) [] (replicate (suc (suc b)) 3 ++ []),
        count_round-next first (suc a ∷ []) 3 (λ e. omega arith),
        count_round-next (first ++ 2 ∷ []) (suc a ∷ 1 ∷ []) 3 (λ e. omega arith),
        count_rounds-same b 1 index (suc a ∷ 1 ∷ []) [],
      ),
      refl,
    )
