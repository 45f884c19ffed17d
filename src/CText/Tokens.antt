-- ===== src/CText/Tokens.antt =====
-- What `strtok` finds behind a word that holds neither its delimiter nor a NUL.
use painting_cps.Prelude.{
  ℕ, ◌+◌, ◌≡◌, refl, ◌≢◌, [], ◌∷◌, ◌++◌, some, arith, length, append_assoc, append-nil,
}
use painting_cps.Exec.{ok}
use painting_cps.CText.{Bytes, token_from, strtok}
use painting_cps.CText.Decimal.{AllDigits}

abbrev pub IsPlain : ℕ → Bytes → Type 0
IsPlain delim [] = Unit {0}
IsPlain delim (c ∷ s) = (c ≢ 0) × (c ≢ delim) × IsPlain delim s

pub AllDigits-IsPlain : (s : Bytes) → AllDigits s → IsPlain b',' s
AllDigits-IsPlain [] h = tt
AllDigits-IsPlain (c ∷ s) (hc, hs) = (omega arith, omega arith, AllDigits-IsPlain s hs)

module _ (delim : ℕ) (nonzero : delim ≢ 0) (at : ℕ) where
  token_from-word :
      (w s text : Bytes) (next : ℕ)
      → IsPlain delim w
      → token_from delim at text next (w ++ delim ∷ s)
        ≡ ok (some (record { at = at; text = text ++ w; next = next + length w + 1; rest = s }))
  unfolding token_from
  token_from-word [] s text next h = ground (arith, append-nil text)
  token_from-word (c ∷ w) s text next (c0, cd, h) =
      ground
        (arith, token_from-word w s (text ++ c ∷ []) (next + 1) h, append_assoc text (c ∷ []) w)

  token_from-last :
      (w s text : Bytes) (next : ℕ)
      → IsPlain delim w
      → token_from delim at text next (w ++ 0 ∷ s)
        ≡ ok (some (record { at = at; text = text ++ w; next = next + length w; rest = 0 ∷ s }))
  unfolding token_from
  token_from-last [] s text next h = ground (arith, append-nil text)
  token_from-last (c ∷ w) s text next (c0, cd, h) =
      ground
        (arith, token_from-last w s (text ++ c ∷ []) (next + 1) h, append_assoc text (c ∷ []) w)

-- A word that ends at the delimiter.
pub strtok-word :
    (delim at : ℕ) (w s : Bytes)
    → delim ≢ 0
    → w ≢ []
    → IsPlain delim w
    → strtok delim at (w ++ delim ∷ s)
      ≡ ok (some (record { at = at; text = w; next = at + length w + 1; rest = s }))
unfolding strtok
strtok-word delim at [] s nonzero ne h = absurd (ne refl)
strtok-word delim at (c ∷ w) s nonzero ne (c0, cd, h) =
    ground (arith, token_from-word delim nonzero at (c ∷ w) s [] at (c0, cd, h))

-- A word that ends the text.
pub strtok-last :
    (delim at : ℕ) (w s : Bytes)
    → delim ≢ 0
    → w ≢ []
    → IsPlain delim w
    → strtok delim at (w ++ 0 ∷ s)
      ≡ ok (some (record { at = at; text = w; next = at + length w; rest = 0 ∷ s }))
unfolding strtok
strtok-last delim at [] s nonzero ne h = absurd (ne refl)
strtok-last delim at (c ∷ w) s nonzero ne (c0, cd, h) =
    ground (arith, token_from-last delim nonzero at (c ∷ w) s [] at (c0, cd, h))
