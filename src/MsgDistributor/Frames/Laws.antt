-- ===== src/MsgDistributor/Frames/Laws.antt =====
-- The layout of a frame: the id's length is that of its digits, and the content follows the header.
use native.Mathlib.Decide.{dec_lt}
use native.Mathlib.Nat.{mul-le-mul_left, pow-suc, pow-zero, div-div-eq-div-mul, div-eq_of_lt}
use painting_cps.Prelude.{
  ℕ, zero, suc, ◌+◌, ◌*◌, ◌/◌, ◌%◌, ◌^◌, ◌≤◌, ◌<◌, ◌≡◌, ◌≢◌, refl, pos, [], ◌∷◌, ◌++◌, arith,
  length, length-append, length-drop, length_pos, append_assoc, int_max, ap, drop, ◌==◌, inl, inr,
  Bool-cases, false,
}
use painting_cps.Exec.{ok, fault, int_overflow}
use painting_cps.CText.{Bytes, digits, print_nat, print_int}
use painting_cps.CText.Copies.{sprintf-fits, write_at-end}
use painting_cps.MsgDistributor.State.{Host, buffer_size}
use painting_cps.MsgDistributor.Frames.{
  id_rounds, id_length, sock_text, sock_message, sock_frame, command_frame,
}

length-digits-small : (g q : ℕ) → q < g → q < 10 → length (digits g q) ≡ 1
unfolding digits
length-digits-small zero q h l = absurd (omega arith)
length-digits-small (suc g) q h l = ground arith

length-digits-large :
    (g q : ℕ) → q < suc g → 10 ≤ q → length (digits (suc g) q) ≡ suc (length (digits g (q / 10)))
unfolding digits
length-digits-large g q h l = ground (arith, length-append (digits g (q / 10)) ((48 + q % 10) ∷ []))

pow-ten_pos : (f : ℕ) → 1 ≤ 10 ^ f
pow-ten_pos zero = omega (arith, pow-zero 10)
pow-ten_pos (suc f) = omega (arith, pow-suc 10 f, pow-ten_pos f)

-- A round that is not the last leaves room for the next divisor.
no_overflow :
    (f n p : ℕ)
    → p * 10 ^ suc f ≡ 10 ^ 9
    → n < 10 ^ 9
    → (n / (p * 10) == 0) ≡ false
    → p * 10 * 10 ≤ int_max
no_overflow zero n p hp hn more =
    ground (arith, pow-suc 10 0, pow-zero 10, div-eq_of_lt {n = n} {m = p * 10})
no_overflow (suc f) n p hp hn more = omega (
  arith,
  ap (λ (t : ℕ). p * t) (pow-suc 10 (suc f)),
  ap (λ (t : ℕ). p * t * 10) (pow-suc 10 f),
  mul-le-mul_left {m = 1} {n = 10 ^ f} (p * 100) (pow-ten_pos f),
)

-- The divisor `p * 10` is a power of ten, and `len` digits are counted but the last.
id_rounds-digits :
    (f n p len g : ℕ)
    → p * 10 ^ f ≡ 10 ^ 9
    → 0 < p
    → n < 10 ^ 9
    → n / p < g
    → id_rounds (suc f) n (p * 10) (suc len) ≡ ok (len + length (digits g (n / p)))
unfolding id_rounds
id_rounds-digits f n p len zero hp hpos hn hq = absurd (omega arith)
id_rounds-digits zero n p len (suc g) hp hpos hn hq = ground (
  arith,
  pow-zero 10,
  div-div-eq-div-mul n p 10,
  div-eq_of_lt {n = n} {m = p},
  length-digits-small (suc g) (n / p),
)
id_rounds-digits (suc f) n p len (suc g) hp hpos hn hq = elim (Bool-cases (n / (p * 10) == 0)) [
  | inl stop ↦
      rw stop (ground (arith, div-div-eq-div-mul n p 10, length-digits-small (suc g) (n / p)))
  | inr more ↦ ground (
    arith,
    div-div-eq-div-mul n p 10,
    length-digits-large g (n / p),
    no_overflow f n p hp hn more,
    id_rounds-digits f n (p * 10) (suc len) g (omega (arith, ap (λ (t : ℕ). p * t) (pow-suc 10 f))),
  )
]

-- For an id below 10^9 the loop counts the digits that `%d` prints.
pub id_length-print_nat : (n : ℕ) → n < 10 ^ 9 → id_length (pos n) ≡ ok (length (print_nat n))
unfolding id_length print_nat
id_length-print_nat n h = ground (arith, id_rounds-digits 9 n 1 0 (suc n) refl)

-- For an id from 10^9 to 2^31 - 1 the loop that counts its digits overflows an int.
pub id_length-overflow : (n : ℕ) → 10 ^ 9 ≤ n → n ≤ int_max → id_length (pos n) ≡ fault int_overflow
unfolding id_length
id_length-overflow n lo hi = ground arith

pub length-sock_text : (id : ℕ) → length (sock_text (pos id)) ≡ length (print_nat id) + 6
unfolding print_int
length-sock_text id = omega (arith, length-append (print_nat id) (b',' ∷ []))

pub length-sock_message :
    (id : ℕ) (content : Bytes)
    → length (sock_message (pos id) content) ≡ length (print_nat id) + length content + 6
unfolding print_int
length-sock_message id content = omega (arith, length-append (print_nat id) (b',' ∷ content))

-- The array that `send` hands to the network is the header and the content, to the byte.
pub sock_frame_lem :
    (host : Host) (id : ℕ) (buffer : Bytes)
    → id < 10 ^ 9
    → buffer ≢ []
    → sock_frame host (pos id) buffer ≡ ok (sock_message (pos id) buffer)
unfolding sock_frame
sock_frame_lem host id buffer small ne = rw (
  id_length-print_nat id small,
  sprintf-fits raw (sock_text (pos id)) room,
  write_at-end (sock_text (pos id)) (0 ∷ drop (length (sock_text (pos id)) + 1) raw) buffer
      (6 + digits_len) (omega (arith, length-sock_text id))
      (omega (
        arith,
        length-drop (length (sock_text (pos id)) + 1) raw,
        sized,
        length-sock_text id,
        filled,
      )),
  append_assoc (print_int (pos id)) (b',' ∷ []) buffer,
)
  where
    digits_len : ℕ
    digits_len = length (print_nat id)

    raw : Bytes
    raw = host.stack (length buffer + digits_len + 6)

    sized : length raw ≡ length buffer + digits_len + 6
    sized = host.length-stack _

    filled : 0 < length buffer
    filled = length_pos buffer ne

    room : length (sock_text (pos id)) < length raw
    room = omega (arith, length-sock_text id, sized, filled)

length-digits-le : (k f n : ℕ) → n < 10 ^ suc k → n < f → length (digits f n) ≤ suc k
length-digits-le k zero n h l = absurd (omega arith)
length-digits-le zero (suc f) n h l =
    omega (arith, length-digits-small (suc f) n l (omega (arith, pow-suc 10 0, pow-zero 10)))
length-digits-le (suc k) (suc f) n h l = elim (dec_lt n 10) [
  | yes small ↦ omega (arith, length-digits-small (suc f) n l small)
  | no large ↦ omega (
    arith,
    length-digits-large f n l (omega arith),
    length-digits-le k f (n / 10) (omega (arith, pow-suc 10 (suc k))) (omega arith),
  )
]

-- An `int` prints with ten digits at most.
pub length-print_nat-le : (n : ℕ) → n < 2 ^ 31 → length (print_nat n) ≤ 10
unfolding print_nat
length-print_nat-le n h = length-digits-le 9 (suc n) n (omega arith) (omega arith)

-- Below 10^9 nine are enough.
pub length-print_nat-le_nine : (n : ℕ) → n < 10 ^ 9 → length (print_nat n) ≤ 9
unfolding print_nat
length-print_nat-le_nine n h = length-digits-le 8 (suc n) n h (omega arith)

-- A command is its text, a NUL, and what the array held before; it always fills the array.
pub command_frame_lem :
    (host : Host) (text : Bytes)
    → length text < buffer_size
    → let tail = drop (length text + 1) (host.stack buffer_size) in
      (command_frame host text ≡ ok (text ++ 0 ∷ tail)) × (length (text ++ 0 ∷ tail) ≡ buffer_size)
unfolding command_frame
command_frame_lem host text h =
    let sized = host.length-stack buffer_size in
    let tail = drop (length text + 1) (host.stack buffer_size) in
    (
      sprintf-fits (host.stack buffer_size) text (omega arith),
      omega (
        arith,
        length-append text (0 ∷ tail),
        length-drop (length text + 1) (host.stack buffer_size),
      ),
    )
