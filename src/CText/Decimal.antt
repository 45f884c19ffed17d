-- ===== src/CText/Decimal.antt =====
-- Decimal printing is undone by `strtol`, and prints digits only.
use painting_cps.Prelude.{
  ℕ, zero, suc, ◌+◌, ◌-◌, ◌*◌, ◌/◌, ◌%◌, ◌^◌, ◌≤◌, ◌<◌, ◌≡◌, refl, pos, [], ◌∷◌, ◌++◌, some, arith,
  ◌≢◌,
}
use painting_cps.Exec.{ok}
use painting_cps.CText.{Bytes, digits, print_nat, scan_digits, strtol, to_int}

abbrev pub IsDigit : ℕ → Type 0
IsDigit c = (b'0' ≤ c) × (c ≤ b'9')

abbrev pub AllDigits : Bytes → Type 0
AllDigits [] = Unit {0}
AllDigits (c ∷ s) = IsDigit c × AllDigits s

pub AllDigits-append : (s t : Bytes) → AllDigits s → AllDigits t → AllDigits (s ++ t)
AllDigits-append [] t hs ht = ht
AllDigits-append (c ∷ s) t (hc, hs) ht = (hc, AllDigits-append s t hs ht)

digits-AllDigits : (f n : ℕ) → AllDigits (digits f n)
unfolding digits
digits-AllDigits zero n = tt
digits-AllDigits (suc f) n =
    ground (
      arith,
      AllDigits-append (digits f (n / 10)) ((48 + n % 10) ∷ []) (digits-AllDigits f (n / 10)),
    )

pub print_nat-AllDigits : (n : ℕ) → AllDigits (print_nat n)
unfolding print_nat
print_nat-AllDigits n = digits-AllDigits (suc n) n

pub scan_digits-append :
    (n : ℕ) (s t : Bytes) → AllDigits s → scan_digits n (s ++ t) ≡ scan_digits (scan_digits n s) t
unfolding scan_digits
scan_digits-append n [] t h = refl
scan_digits-append n (c ∷ s) t (hc, hs) =
    ground (arith, scan_digits-append (n * 10 + (c - b'0')) s t hs)

scan_digits-digits : (f n : ℕ) → n < f → scan_digits 0 (digits f n) ≡ n
unfolding scan_digits digits
scan_digits-digits zero n h = absurd (omega arith)
scan_digits-digits (suc f) n h = ground (
  arith,
  scan_digits-append 0 (digits f (n / 10)) ((48 + n % 10) ∷ []) (digits-AllDigits f (n / 10)),
  scan_digits-digits f (n / 10),
)

strtol-digits :
    (s : Bytes) → AllDigits s → scan_digits 0 s < 2 ^ 63 → strtol s ≡ pos (scan_digits 0 s)
unfolding strtol
strtol-digits [] h lt = unfold scan_digits in refl
strtol-digits (c ∷ s) (hc, hs) lt = ground arith

-- The digits of a number have its value.
pub scan_digits-print_nat : (n : ℕ) → scan_digits 0 (print_nat n) ≡ n
unfolding print_nat
scan_digits-print_nat n = ground (arith, scan_digits-digits (suc n) n)

-- `strtol` reads back what `%d` printed, for every `int` that is not negative.
pub to_int-print_nat : (n : ℕ) → n < 2 ^ 31 → to_int (some (print_nat n)) ≡ ok (pos n)
unfolding to_int print_nat
to_int-print_nat n h = ground (
  arith,
  strtol-digits (digits (suc n) n) (digits-AllDigits (suc n) n),
  scan_digits-digits (suc n) n,
)

append_last_ne : (s : Bytes) (c : ℕ) → s ++ c ∷ [] ≢ []
append_last_ne [] c h = cc
append_last_ne (x ∷ s) c h = cc

-- Something is always printed.
pub print_nat-ne-nil : (n : ℕ) → print_nat n ≢ []
unfolding print_nat digits
print_nat-ne-nil n = ground (arith, append_last_ne (digits n (n / 10)) (48 + n % 10))
