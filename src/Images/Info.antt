-- ===== src/Images/Info.antt =====
-- The message that announces a picture: its file name and its size.
use painting_cps.Prelude.{
  ℕ, ◌+◌, ◌^◌, ◌<◌, ◌≡◌, ◌≢◌, ℤ, pos, negsuc, [], ◌∷◌, ◌++◌, Option, none, some, leb, if◌then◌else◌,
  length, drop, arith, append_assoc,
}
use painting_cps.Exec.{Result, ok, fault, bind, null_pointer, out_of_bounds, out_of_range}
use painting_cps.CText.{Bytes, Token, print_nat, sprintf, strtok, strtok_next, text_of, to_int}
use painting_cps.CText.Decimal.{to_int-print_nat, print_nat-AllDigits, print_nat-ne-nil}
use painting_cps.CText.Copies.{sprintf-fits}
use painting_cps.CText.Tokens.{IsPlain, AllDigits-IsPlain, strtok-word, strtok-last}

-- `%s,%ld` of the name and the size.
unfoldable pub info_text : Bytes → ℕ → Bytes
info_text name size = name ++ b',' ∷ print_nat size

-- The client's message, in its array.
unfoldable pub file_info : Bytes → Bytes → ℕ → Result Bytes
file_info raw name size = sprintf raw (info_text name size)

-- `fake_name`, when a test sends several pictures.
unfoldable pub fake_name : ℕ → Bytes
fake_name fake_id =
    b'p' ∷ b'i' ∷ b'c' ∷ b's' ∷ b'/' ∷ print_nat fake_id ++ b'.' ∷ b'j' ∷ b'p' ∷ b'g' ∷ []

-- `strcpy` into `file_name_temp`, an array of 60 bytes.
unfoldable pub copy_name : Option Token → Result Bytes
copy_name none = fault null_pointer
copy_name (some t) = if leb (length t.text + 1) 60 then ok t.text else fault out_of_bounds

-- The server's parse of it: the file name and the size.
unfoldable pub parse_info : Bytes → Result (Bytes × ℤ)
parse_info buffer = bind (strtok b',' 0 buffer) (λ name. bind (copy_name name) (λ file_name_temp.
    bind (strtok_next b',' name)
      (λ size. bind (to_int (text_of size)) (λ file_size. ok (file_name_temp, file_size)))))

-- `new char[n]`: a negative size throws. `heap n` is what the new array holds.
unfoldable pub new_array : (ℕ → Bytes) → ℤ → Result Bytes
new_array heap (pos n) = ok (heap n)
new_array heap (negsuc n) = fault out_of_range

-- The server reads the name and the size that the client announces, whatever follows the text.
pub parse_info-file :
    (name tail : Bytes) (size : ℕ)
    → name ≢ []
    → length name < 60
    → IsPlain b',' name
    → size < 2 ^ 31
    → parse_info (info_text name size ++ 0 ∷ tail) ≡ ok (name, pos size)
unfolding parse_info info_text strtok_next text_of copy_name
parse_info-file name tail size ne short plain small =
    let word =
      strtok-word b',' 0 name (print_nat size ++ 0 ∷ tail) (λ e. omega (arith, e)) ne plain in
    let last =
      strtok-last b',' (0 + length name + 1) (print_nat size) tail (λ e. omega (arith, e))
        (print_nat-ne-nil size) (AllDigits-IsPlain (print_nat size) (print_nat-AllDigits size)) in
    rw (append_assoc name (b',' ∷ print_nat size) (0 ∷ tail))
      (ground (arith, word, last, to_int-print_nat size small))

-- The server reads the name and the size from the announcement that the client prints, for a name
-- that is not empty, shorter than 60 bytes and without comma or NUL, a size below 2^31 and an
-- array that holds the text.
pub parse_info-file_info :
    (raw name : Bytes) (size : ℕ)
    → name ≢ []
    → length name < 60
    → IsPlain b',' name
    → size < 2 ^ 31
    → length (info_text name size) < length raw
    → (buffer : Bytes) × (file_info raw name size ≡ ok buffer)
      × (parse_info buffer ≡ ok (name, pos size))
unfolding file_info
parse_info-file_info raw name size ne short plain small room =
    let tail = drop (length (info_text name size) + 1) raw in
    (
      info_text name size ++ 0 ∷ tail,
      sprintf-fits raw (info_text name size) room,
      parse_info-file name tail size ne short plain small,
    )
