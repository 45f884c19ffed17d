-- ===== src/Images/Blocks.antt =====
-- The blocks in which the client reads a file.
use painting_cps.Prelude.{
  ℕ, zero, suc, ◌≤◌, ◌<◌, ◌≡◌, refl, List, [], ◌∷◌, ◌++◌, ◌==◌, if◌then◌else◌, length, take, drop,
  arith, length-drop,
}
use painting_cps.CText.{Bytes}

-- `while ((n = fread(buffer, 1, block, fp)) > 0)`: the blocks that the loop sees, with fuel for as
-- many rounds as the file has bytes, and one.
unfoldable pub fread_blocks : ℕ → ℕ → Bytes → List Bytes
fread_blocks zero block file = []
fread_blocks (suc f) block file =
    let rest = fread_blocks f block (drop block file) in
    if length file == 0 then [] else take block file ∷ rest

-- The bytes of several messages in a row.
abbrev pub flatten : List Bytes → Bytes
flatten [] = []
flatten (b ∷ bs) = b ++ flatten bs

abbrev pub NonEmpty : List Bytes → Type 0
NonEmpty [] = Unit {0}
NonEmpty (b ∷ bs) = (1 ≤ length b) × NonEmpty bs

pub take-drop_append : (n : ℕ) (s : Bytes) → take n s ++ drop n s ≡ s
take-drop_append zero s = ground arith
take-drop_append (suc n) [] = ground arith
take-drop_append (suc n) (c ∷ s) = ground (arith, take-drop_append n s)

length-take_pos : (n : ℕ) (s : Bytes) → 1 ≤ n → 1 ≤ length s → 1 ≤ length (take n s)
length-take_pos zero s h k = absurd (omega (arith, h))
length-take_pos (suc n) [] h k = absurd (omega (arith, k))
length-take_pos (suc n) (c ∷ s) h k = ground arith

nil_of_length : (s : Bytes) → length s ≡ 0 → s ≡ []
nil_of_length [] e = refl
nil_of_length (c ∷ s) e = absurd (omega (arith, e))

-- Enough fuel reads the whole file, in order, in blocks that are not empty.
pub flatten-fread_blocks :
    (f block : ℕ) (file : Bytes)
    → 1 ≤ block
    → length file < f
    → (flatten (fread_blocks f block file) ≡ file) × NonEmpty (fread_blocks f block file)
unfolding fread_blocks
flatten-fread_blocks zero block file h k = absurd (omega (arith, k))
flatten-fread_blocks (suc f) block [] h k = ground arith
flatten-fread_blocks (suc f) block (c ∷ s) h k =
    let (all, pos_each) =
      flatten-fread_blocks f block (drop block (c ∷ s)) h
        (omega (arith, h, k, length-drop block (c ∷ s))) in
    ground (arith, all, pos_each, take-drop_append block (c ∷ s), length-take_pos block (c ∷ s) h)
