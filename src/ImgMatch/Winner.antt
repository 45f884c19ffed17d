-- ===== src/ImgMatch/Winner.antt =====
-- The image that the vote picks has the most votes.
use painting_cps.Prelude.{
  ℕ, ◌+◌, ◌≤◌, ◌≡◌, ◌≢◌, refl, ◌⊎◌, inl, inr, List, [], ◌∷◌, ◌++◌, Bool, true, false, arith, ◌==◌,
  ==_iff, ap, ltb, if◌then◌else◌, append_assoc, append-nil, Bool-cases,
}
use painting_cps.Exec.{Result, ok, bind, Result-cases}
use painting_cps.ImgMatch.Vision.{Vision, Neighbours}
use painting_cps.ImgMatch.Database.{vector_at}
use painting_cps.ImgMatch.Vote.{ImgFreq, bump, find_img_num, add_vote, max_freq, last_with, tally}

-- The votes for an image.
abbrev pub count : ℕ → List ℕ → ℕ
count n [] = 0
count n (v ∷ vs) = (if v == n then 1 else 0) + count n vs

count-snoc :
    (n m : ℕ) (vs : List ℕ) → count n (vs ++ m ∷ []) ≡ count n vs + (if m == n then 1 else 0)
count-snoc n m [] = ground arith
count-snoc n m (v ∷ vs) = ground (arith, count-snoc n m vs)

-- Every entry holds its image's votes, one at least.
abbrev pub IsCount : List ℕ → List ImgFreq → Type 0
IsCount vs [] = Unit {0}
IsCount vs (t ∷ ts) = (1 ≤ t.freq) × (t.freq ≡ count t.img_index vs) × IsCount vs ts

-- No image with votes is missing.
pub record Tallied (vs : List ℕ) (ts : List ImgFreq) : Type 0 where
  pub exact : IsCount vs ts
  pub complete : (n : ℕ) → find_img_num n ts ≡ false → count n vs ≡ 0

IsCount-bump :
    (m : ℕ) (vs : List ℕ) (ts : List ImgFreq) → IsCount vs ts → IsCount (vs ++ m ∷ []) (bump m ts)
unfolding bump
IsCount-bump m vs [] h = tt
IsCount-bump m vs (t ∷ ts) h = ground (arith, count-snoc t.img_index m vs, IsCount-bump m vs ts h.2)

IsCount-append :
    (vs : List ℕ) (ts us : List ImgFreq) → IsCount vs ts → IsCount vs us → IsCount vs (ts ++ us)
IsCount-append vs [] us h k = k
IsCount-append vs (t ∷ ts) us h k = (h.0, h.1, IsCount-append vs ts us h.2 k)

find-bump : (n m : ℕ) (ts : List ImgFreq) → find_img_num n (bump m ts) ≡ find_img_num n ts
unfolding bump find_img_num
find-bump n m [] = refl
find-bump n m (t ∷ ts) = ground (arith, find-bump n m ts)

find-last :
    (n m : ℕ) (ts : List ImgFreq)
    → find_img_num n (ts ++ record { img_index = m; freq = 1 } ∷ []) ≡ false
    → (find_img_num n ts ≡ false) × ((m == n) ≡ false)
unfolding find_img_num
find-last n m [] h = ground arith
find-last n m (t ∷ ts) h = ground (arith, find-last n m ts)

add_vote-old : (m : ℕ) (ts : List ImgFreq) → find_img_num m ts ≡ true → add_vote ts m ≡ bump m ts
unfolding add_vote
add_vote-old m ts h = rw h

add_vote-new :
    (m : ℕ) (ts : List ImgFreq)
    → find_img_num m ts ≡ false
    → add_vote ts m ≡ bump m ts ++ record { img_index = m; freq = 1 } ∷ []
unfolding add_vote
add_vote-new m ts h = rw h

found_eq : (n m : ℕ) (ts : List ImgFreq) → m ≡ n → find_img_num m ts ≡ find_img_num n ts
found_eq n m ts e = rw e

complete-old :
    (m : ℕ) (vs : List ℕ) (ts : List ImgFreq)
    → Tallied vs ts
    → find_img_num m ts ≡ true
    → (n : ℕ) → find_img_num n (bump m ts) ≡ false
    → count n (vs ++ m ∷ []) ≡ 0
complete-old m vs ts h old n e = ground (
  arith,
  find-bump n m ts,
  count-snoc n m vs,
  h.complete n (ground (arith, find-bump n m ts)),
  found_eq n m ts,
)

complete-new :
    (m : ℕ) (vs : List ℕ) (ts : List ImgFreq)
    → Tallied vs ts
    → (n : ℕ) → find_img_num n (bump m ts ++ record { img_index = m; freq = 1 } ∷ []) ≡ false
    → count n (vs ++ m ∷ []) ≡ 0
complete-new m vs ts h n e =
    let (absent, other) = find-last n m (bump m ts) e in
    ground
      (arith, find-bump n m ts, count-snoc n m vs, h.complete n (ground (arith, find-bump n m ts)))

add_vote-Tallied :
    (m : ℕ) (vs : List ℕ) (ts : List ImgFreq)
    → Tallied vs ts
    → Tallied (vs ++ m ∷ []) (add_vote ts m)
add_vote-Tallied m vs ts h = elim (Bool-cases (find_img_num m ts)) [
  | inl old ↦
      rw (add_vote-old m ts old)
        (record { exact = IsCount-bump m vs ts h.exact; complete = complete-old m vs ts h old })
  | inr new ↦ rw (add_vote-new m ts new) (record {
    exact =
        IsCount-append (vs ++ m ∷ []) (bump m ts) (record { img_index = m; freq = 1 } ∷ [])
          (IsCount-bump m vs ts h.exact) (ground (arith, count-snoc m m vs, h.complete m new));
    complete = complete-new m vs ts h;
  })
]

-- The images that the rows vote for, in order.
unfoldable pub ballots :
    {D : Type 0} → (D → D → Bool) → List ℕ → List (Neighbours D) → Result (List ℕ)
ballots is_distinct index_img [] = ok []
ballots is_distinct index_img (row ∷ rows) =
    let rest = ballots is_distinct index_img rows in
    if is_distinct row.first row.second
    then bind (vector_at index_img row.nearest) (λ n. bind rest (λ ns. ok (n ∷ ns)))
    else rest

module _ {Image Descriptor Distance : Type 0} (v : Vision Image Descriptor Distance)
    (index_img : List ℕ) where
  -- The loop of `matchImg` counts the ballots.
  pub tally-Tallied :
      (rows : List (Neighbours Distance)) (vs ns : List ℕ) (ts : List ImgFreq)
      → Tallied vs ts
      → ballots v.is_distinct index_img rows ≡ ok ns
      → (us : List ImgFreq) × (tally v index_img ts rows ≡ ok us) × Tallied (vs ++ ns) us
  unfolding tally ballots
  tally-Tallied [] vs ns ts h e = (ts, refl, ground (arith, append-nil vs))
  tally-Tallied (row ∷ rows) vs ns ts h e = elim (Bool-cases (v.is_distinct row.first row.second)) [
    | inl counted ↦ elim (Result-cases (vector_at index_img row.nearest)) [
      | inl (n, at) ↦ elim (Result-cases (ballots v.is_distinct index_img rows)) [
        | inl (ms, more) ↦
            let (us, done, good) =
              tally-Tallied rows (vs ++ n ∷ []) ms (add_vote ts n) (add_vote-Tallied n vs ts h)
                more in
            let split : ns ≡ n ∷ ms = ground arith in
            (us, ground arith, rw split (rw append_assoc at good))
        | inr (f, failed) ↦ absurd (ground arith)
      ]
      | inr (f, failed) ↦ absurd (ground arith)
    ]
    | inr skipped ↦
        let (us, done, good) = tally-Tallied rows vs ns ts h (ground arith) in
        (us, ground arith, good)
  ]

pub le-max_freq : (m : ℕ) (ts : List ImgFreq) → m ≤ max_freq m ts
unfolding max_freq
le-max_freq m [] = omega arith
le-max_freq m (t ∷ ts) = ground (arith, le-max_freq (if ltb m t.freq then t.freq else m) ts)

head-le : (m : ℕ) (t : ImgFreq) (ts : List ImgFreq) → t.freq ≤ max_freq m (t ∷ ts)
unfolding max_freq
head-le m t ts = ground (arith, le-max_freq (if ltb m t.freq then t.freq else m) ts)

-- No image has more votes than the maximum.
count-le-max_freq :
    (vs : List ℕ) (ts : List ImgFreq) (m n : ℕ)
    → IsCount vs ts
    → find_img_num n ts ≡ true
    → count n vs ≤ max_freq m ts
unfolding max_freq find_img_num
count-le-max_freq vs [] m n h e = cc
count-le-max_freq vs (t ∷ ts) m n h e =
    let m' = if ltb m t.freq then t.freq else m in
    elim (Bool-cases (t.img_index == n)) [
      | inl same ↦
          ground
            (arith, le-max_freq m' ts, ap (λ (k : ℕ). count k vs) ((==_iff t.img_index n).0 same))
      | inr other ↦ ground (arith, count-le-max_freq vs ts m' n h.2)
    ]

abbrev HasFreq : ℕ → List ImgFreq → Type 0
HasFreq m [] = ⊥
HasFreq m (t ∷ ts) = (t.freq ≡ m) ⊎ HasFreq m ts

max_freq-HasFreq : (m : ℕ) (ts : List ImgFreq) → (max_freq m ts ≡ m) ⊎ HasFreq (max_freq m ts) ts
unfolding max_freq
max_freq-HasFreq m [] = inl refl
max_freq-HasFreq m (t ∷ ts) =
    ground (arith, max_freq-HasFreq (if ltb m t.freq then t.freq else m) ts)

-- The last image with `m` votes is found if there is one.
last_with-count :
    (vs : List ℕ) (ts : List ImgFreq) (m index : ℕ)
    → IsCount vs ts
    → (count index vs ≡ m) ⊎ HasFreq m ts
    → count (last_with m index ts) vs ≡ m
unfolding last_with
last_with-count vs [] m index h (inl e) = e
last_with-count vs [] m index h (inr e) = absurd e
last_with-count vs (t ∷ ts) m index h k = elim (Bool-cases (t.freq == m)) [
  | inl hit ↦ ground (arith, last_with-count vs ts m t.img_index h.2 (inl (ground arith)))
  | inr miss ↦ ground (arith, last_with-count vs ts m index h.2 (ground arith))
]

reached :
    (vs : List ℕ) (t : ImgFreq) (ts : List ImgFreq)
    → IsCount vs (t ∷ ts)
    → (max_freq 1 (t ∷ ts) ≡ 1) ⊎ HasFreq (max_freq 1 (t ∷ ts)) (t ∷ ts)
    → HasFreq (max_freq 1 (t ∷ ts)) (t ∷ ts)
reached vs t ts h (inr e) = e
reached vs t ts h (inl e) = inl (omega (arith, head-le 1 t ts))

-- The image that the loops choose from a vote that is counted right and not empty has the most
-- votes, and maxFreq is their number.
pub winner-count :
    (vs : List ℕ) (ts : List ImgFreq)
    → Tallied vs ts
    → ts ≢ []
    → let most = max_freq 1 ts in
      (count (last_with most 0 ts) vs ≡ most) × ((n : ℕ) → count n vs ≤ most)
winner-count vs [] h ne = absurd (ne refl)
winner-count vs (t ∷ ts) h ne =
    let all = t ∷ ts in
    (
      last_with-count vs all (max_freq 1 all) 0 h.exact
          (inr (reached vs t ts h.exact (max_freq-HasFreq 1 all))),
      λ n. elim (Bool-cases (find_img_num n all)) [
        | inl known ↦ count-le-max_freq vs all 1 n h.exact known
        | inr unknown ↦ omega (arith, h.complete n unknown)
      ],
    )
