-- ===== src/CText/Copies.antt =====
-- Copies that stay inside their arrays.
use painting_cps.Prelude.{
  ℕ, zero, suc, replicate, ◌+◌, ◌≤◌, ◌<◌, ◌≡◌, refl, [], ◌∷◌, ◌++◌, arith, length, drop,
  length-append, take-append_exact, drop-append_exact, drop-append, drop-all, append_assoc,
  append-nil, ap, leb, true, false,
}
use painting_cps.Exec.{ok}
use painting_cps.CText.{Bytes, overlay, sprintf, slice, write_at}

pub le→leb : (a b : ℕ) → a ≤ b → leb a b ≡ true
le→leb a b h = ground arith

pub lt→leb : (a b : ℕ) → b < a → leb a b ≡ false
lt→leb a b h = ground arith

pub overlay-fits :
    (raw text : Bytes)
    → length text ≤ length raw
    → overlay raw text ≡ ok (text ++ drop (length text) raw)
unfolding overlay
overlay-fits raw text h = rw (le→leb _ _ h)

pub sprintf-fits :
    (raw text : Bytes)
    → length text < length raw
    → sprintf raw text ≡ ok (text ++ 0 ∷ drop (length text + 1) raw)
unfolding sprintf
sprintf-fits raw text h =
    rw (overlay-fits raw (text ++ 0 ∷ []) (omega (arith, length-append text (0 ∷ []))))
      (rw (length-append text (0 ∷ [])) (ap ok (append_assoc text (0 ∷ []) _)))

-- A copy that ends with the array replaces all that follows `text`.
pub write_at-end :
    (text rest src : Bytes) (p : ℕ)
    → p ≡ length text
    → length src ≡ length rest
    → write_at (text ++ rest) p src ≡ ok (text ++ src)
unfolding write_at
write_at-end text rest src p hp hs = rw (
  le→leb (p + length src) (length (text ++ rest)) (omega (arith, length-append text rest)),
  take-append_exact text rest p hp,
  drop-all (p + length src) (text ++ rest) (omega (arith, length-append text rest)),
  append-nil (text ++ src),
)

-- A slice that starts behind `head`.
pub slice-behind :
    (head body tail : Bytes) (p n : ℕ)
    → p ≡ length head
    → n ≡ length body
    → slice (head ++ (body ++ tail)) p n ≡ ok body
unfolding slice
slice-behind head body tail p n hp hn = rw (
  le→leb (p + n) (length (head ++ (body ++ tail)))
      (omega (arith, length-append head (body ++ tail), length-append body tail)),
  drop-append_exact head (body ++ tail) p hp,
  take-append_exact body tail n hn,
)

-- A copy behind what is there already.
pub write_at-behind :
    (head rest src : Bytes)
    → length src ≤ length rest
    → write_at (head ++ rest) (length head) src ≡ ok (head ++ src ++ drop (length src) rest)
unfolding write_at
write_at-behind head rest src h =
    rw
      (
        le→leb (length head + length src) (length (head ++ rest))
            (omega (arith, h, length-append head rest)),
        take-append_exact head rest (length head) refl,
        drop-append (length src) head rest,
      )
      refl

pub drop-replicate : (n k m a : ℕ) → k ≡ n + m → drop n (replicate k a) ≡ replicate m a
drop-replicate zero k m a h =
    let same : k ≡ m = omega (arith, h) in ap (λ (j : ℕ). replicate j a) same
drop-replicate (suc n) zero m a h = absurd (omega (arith, h))
drop-replicate (suc n) (suc k) m a h = drop-replicate n k m a (omega (arith, h))
