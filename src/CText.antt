-- ===== src/CText.antt =====
-- The C library's text routines that the program calls, over buffers of bytes: decimal printing by
-- `sprintf("%d")`, `strtol`, `strtok`, and copies between arrays, with their faults.
pub mod Decimal
pub mod Tokens
pub mod Copies
pub mod Stoi
use Prim.Native.Char.{code}
use painting_cps.Prelude.{
  ℕ, zero, suc, ◌+◌, ◌-◌, ◌*◌, ◌/◌, ◌%◌, ◌^◌, String, ℤ, pos, negsuc, to_int32, List, [], ◌∷◌, ◌++◌,
  Bool, true, false, ◌&&◌, ◌||◌, Option, none, some, ltb, leb, ◌==◌, if◌then◌else◌, length, take,
  drop,
}
use painting_cps.Exec.{Result, ok, fault, bind, null_pointer, out_of_bounds, unterminated}

abbrev pub Bytes : Type 0
Bytes = List ℕ

-- The bytes of an ASCII literal.
abbrev pub codes : String → Bytes
codes String.[] = []
codes (String.◌∷◌ c s) = code c ∷ codes s

-- Decimal digits, most significant first. More than `n` rounds are never needed.
unfoldable pub digits : ℕ → ℕ → Bytes
digits zero n = []
digits (suc f) n =
    let rest = digits f (n / 10) in if ltb n 10 then (48 + n) ∷ [] else rest ++ (48 + n % 10) ∷ []

-- `%d` of a number that is not negative, and of any `int`.
unfoldable pub print_nat : ℕ → Bytes
print_nat n = digits (suc n) n

unfoldable pub print_int : ℤ → Bytes
print_int (pos n) = print_nat n
print_int (negsuc n) = b'-' ∷ print_nat (suc n)

-- A write of `text` over the start of an array that holds `raw`. `sprintf` ends the text by a NUL.
unfoldable pub overlay : Bytes → Bytes → Result Bytes
overlay raw text =
    if leb (length text) (length raw)
    then ok (text ++ drop (length text) raw)
    else fault out_of_bounds

unfoldable pub sprintf : Bytes → Bytes → Result Bytes
unfolding overlay
sprintf raw text = overlay raw (text ++ 0 ∷ [])

-- `n` bytes at `p`, for a `memcpy` out of the array.
unfoldable pub slice : Bytes → ℕ → ℕ → Result Bytes
slice b p n = if leb (p + n) (length b) then ok (take n (drop p b)) else fault out_of_bounds

-- `memcpy(dst + p, src, n)` with `src` given as its bytes.
unfoldable pub write_at : Bytes → ℕ → Bytes → Result Bytes
write_at b p src =
    if leb (p + length src) (length b)
    then ok (take p b ++ src ++ drop (p + length src) b)
    else fault out_of_bounds

abbrev pub is_space : ℕ → Bool
is_space c = c == 32 || (leb 9 c && leb c 13)

abbrev pub is_digit : ℕ → Bool
is_digit c = leb b'0' c && leb c b'9'

-- The value of the digits at the start of a text.
unfoldable pub scan_digits : ℕ → Bytes → ℕ
scan_digits n [] = n
scan_digits n (c ∷ s) =
    let rest = scan_digits (n * 10 + (c - b'0')) s in if is_digit c then rest else n

-- `strtol(s, NULL, 10)` saturates at the ends of `long`.
abbrev saturate_pos : ℕ → ℤ
saturate_pos n = if ltb n (2 ^ 63) then pos n else pos (2 ^ 63 - 1)

abbrev saturate_neg : ℕ → ℤ
saturate_neg zero = pos 0
saturate_neg (suc n) = if ltb n (2 ^ 63) then negsuc n else negsuc (2 ^ 63 - 1)

unfoldable pub strtol_sign : Bytes → ℤ
unfolding scan_digits
strtol_sign [] = pos 0
strtol_sign (c ∷ s) =
    if c == b'-'
    then saturate_neg (scan_digits 0 s)
    else if c == b'+'
    then saturate_pos (scan_digits 0 s)
    else saturate_pos (scan_digits 0 (c ∷ s))

unfoldable pub strtol : Bytes → ℤ
unfolding strtol_sign
strtol [] = pos 0
strtol (c ∷ s) = if is_space c then strtol s else strtol_sign (c ∷ s)

-- `int x = strtol(s, NULL, 10)`, where `s` may be the null pointer that `strtok` returned.
unfoldable pub to_int : Option Bytes → Result ℤ
unfolding strtol
to_int none = fault null_pointer
to_int (some s) = ok (to_int32 (strtol s))

-- A token of `strtok`: where it starts, its text, and where the next call goes on, as an offset and
-- as the rest of the array.
pub record Token : Type 0 where
  pub at : ℕ
  pub text : Bytes
  pub next : ℕ
  pub rest : Bytes

-- The token's end: its delimiter is overwritten and passed, a NUL is kept.
unfoldable pub token_from : ℕ → ℕ → Bytes → ℕ → Bytes → Result (Option Token)
token_from delim at text next [] = fault unterminated
token_from delim at text next (c ∷ s) =
    if c == 0
    then ok (some (record { at = at; text = text; next = next; rest = c ∷ s }))
    else if c == delim
    then ok (some (record { at = at; text = text; next = next + 1; rest = s }))
    else token_from delim at (text ++ c ∷ []) (next + 1) s

-- `strtok(s, delim)` for one delimiter: leading delimiters are skipped, and a NUL ends the search
-- with a null pointer. Reading past the array is a fault.
unfoldable pub strtok : ℕ → ℕ → Bytes → Result (Option Token)
unfolding token_from
strtok delim p [] = fault unterminated
strtok delim p (c ∷ s) =
    if c == 0
    then ok none
    else if c == delim
    then strtok delim (p + 1) s
    else token_from delim p [] p (c ∷ s)

-- `strtok(NULL, delim)` after a token, or after the search has ended.
unfoldable pub strtok_next : ℕ → Option Token → Result (Option Token)
unfolding strtok
strtok_next delim none = ok none
strtok_next delim (some t) = strtok delim t.next t.rest

unfoldable pub text_of : Option Token → Option Bytes
text_of none = none
text_of (some t) = some t.text

-- The C string that starts an array.
unfoldable pub c_string : Bytes → Result Bytes
c_string [] = fault unterminated
c_string (c ∷ s) = let rest = c_string s in if c == 0 then ok [] else bind rest (λ t. ok (c ∷ t))
