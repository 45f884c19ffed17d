-- ===== src/CText/Stoi.antt =====
-- `stoi` of the C++ library, and that it reads back what `%d` prints.
use painting_cps.Prelude.{
  ℕ, zero, suc, ◌+◌, ◌^◌, ◌<◌, ◌≡◌, ◌≢◌, refl, ℤ, pos, negsuc, [], ◌∷◌, ◌==◌, ltb, if◌then◌else◌,
  arith,
}
use painting_cps.Exec.{Result, ok, fault, out_of_range}
use painting_cps.CText.{Bytes, print_nat, is_space, is_digit, scan_digits}
use painting_cps.CText.Decimal.{
  AllDigits, print_nat-AllDigits, print_nat-ne-nil, scan_digits-print_nat,
}

-- `stoi`: it throws where no digit follows the spaces and the sign, and beyond the range of `int`.
unfoldable positive : Bytes → Result ℤ
positive [] = fault out_of_range
positive (c ∷ s) =
    let n = scan_digits 0 (c ∷ s) in
    if is_digit c
    then (if ltb n (2 ^ 31) then ok (pos n) else fault out_of_range)
    else fault out_of_range

abbrev negate : ℕ → ℤ
negate zero = pos 0
negate (suc n) = negsuc n

unfoldable negative : Bytes → Result ℤ
negative [] = fault out_of_range
negative (c ∷ s) =
    let n = scan_digits 0 (c ∷ s) in
    if is_digit c
    then (if ltb n (2 ^ 31 + 1) then ok (negate n) else fault out_of_range)
    else fault out_of_range

unfoldable pub stoi : Bytes → Result ℤ
unfolding positive negative
stoi [] = fault out_of_range
stoi (c ∷ s) =
    if is_space c
    then stoi s
    else if c == b'-'
    then negative s
    else if c == b'+'
    then positive s
    else positive (c ∷ s)

stoi-digits :
    (s : Bytes) (n : ℕ)
    → AllDigits s
    → s ≢ []
    → scan_digits 0 s ≡ n
    → n < 2 ^ 31
    → stoi s ≡ ok (pos n)
unfolding stoi positive
stoi-digits [] n h ne e lt = absurd (ne refl)
stoi-digits (c ∷ s) n (hc, hs) ne e lt = ground (arith, e, lt, hc)

pub stoi-print_nat : (n : ℕ) → n < 2 ^ 31 → stoi (print_nat n) ≡ ok (pos n)
stoi-print_nat n h =
    stoi-digits (print_nat n) n (print_nat-AllDigits n) (print_nat-ne-nil n)
      (scan_digits-print_nat n) h
