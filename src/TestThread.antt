-- ===== src/TestThread.antt =====
-- `test_Thread` of client/client-OpenCV.cpp: a line of input that is a number sets the delay.
use painting_cps.Prelude.{
  ℕ, ◌^◌, ◌<◌, ◌≡◌, refl, ℤ, pos, [], ◌∷◌, Bool, true, ◌&&◌, if◌then◌else◌, arith,
}
use painting_cps.Exec.{Result, ok}
use painting_cps.CText.{Bytes, print_nat, is_digit}
use painting_cps.CText.Stoi.{stoi, stoi-print_nat}
use painting_cps.CText.Decimal.{AllDigits, print_nat-AllDigits}

-- The loop over the word: every character is a digit.
unfoldable pub is_number : Bytes → Bool
is_number [] = true
is_number (c ∷ s) = is_digit c && is_number s

-- One round of the loop for the word that was read: the delay afterwards.
unfoldable pub read_delay : Bytes → ℤ → Result ℤ
unfolding is_number
read_delay input delay_time = if is_number input then stoi input else ok delay_time

AllDigits-is_number : (s : Bytes) → AllDigits s → is_number s ≡ true
unfolding is_number
AllDigits-is_number [] h = refl
AllDigits-is_number (c ∷ s) (hc, hs) = ground (arith, hc, AllDigits-is_number s hs)

-- A number below 2^31, printed in decimal, becomes the delay when it is typed in, whatever the
-- delay was.
pub read_delay-print_nat :
    (n : ℕ) (delay_time : ℤ) → n < 2 ^ 31 → read_delay (print_nat n) delay_time ≡ ok (pos n)
unfolding read_delay
read_delay-print_nat n delay_time h =
    rw (AllDigits-is_number (print_nat n) (print_nat-AllDigits n)) (stoi-print_nat n h)
