-- ===== src/Storm/Spout/Delivered.antt =====
-- What reaches the spout.
use native.Mathlib.Nat.{zero-add}
use painting_cps.Prelude.{
  ℕ, zero, suc, ◌+◌, ◌-◌, ◌^◌, ◌==◌, ◌≤◌, ◌<◌, ◌≡◌, refl, ◌∙◌, ap, ℤ, pos, negsuc, true, false,
  List, [], ◌∷◌, ◌++◌, some, arith, length, length-append, length-replicate, append_assoc,
  append-nil, take, replicate,
}
use painting_cps.Exec.{ok, bind, done}
use painting_cps.CText.{Bytes, print_nat, print_int, sprintf, c_string, to_int}
use painting_cps.CText.Decimal.{to_int-print_nat, print_nat-AllDigits}
use painting_cps.CText.Copies.{sprintf-fits, drop-replicate, le→leb}
use painting_cps.MsgDistributor.Frames.Laws.{length-print_nat-le}
use painting_cps.Calls.{
  Call, socket_stream, connect_port, find_host, parse_address, close_fd, write_to, read_from, Reply,
  net, returns,
}
use painting_cps.Storm.Answers.{c_string-digits}
use painting_cps.Storm.Spout.{
  spout_port, spout_size, connect_rounds, open_spout, announce_size, picture_bytes, write_image,
  hand_over,
}

abbrev pub refused : Reply
refused = record { ret = negsuc 0; bytes = []; stops = false }

-- Refused connections are tried again, with enough fuel.
pub connect_rounds-replicate :
    (k f c : ℕ) (fd : ℤ) (rest : List Reply) (trace : List Call)
    → k < f
    → connect_rounds f fd (net (replicate k refused ++ returns c ∷ rest) trace)
      ≡ done tt (net rest (trace ++ replicate (suc k) (connect_port fd spout_port)))
unfolding connect_rounds
connect_rounds-replicate k zero c fd rest trace h = absurd (omega (arith, h))
connect_rounds-replicate zero (suc f) c fd rest trace h = refl
connect_rounds-replicate (suc k) (suc f) c fd rest trace h =
    let tried = connect_port fd spout_port in
    connect_rounds-replicate k f c fd rest (trace ++ tried ∷ []) (omega (arith, h))
    ∙ ap (λ (t : List Call). done tt (net rest t))
        (append_assoc trace (tried ∷ []) (replicate (suc k) tried))

-- The array with the size's digits.
abbrev pub size_block : ℕ → Bytes
size_block n = print_nat n ++ 0 ∷ replicate (99 - length (print_nat n)) 0

sprintf-size :
    (n : ℕ) → n < 2 ^ 31 → sprintf (replicate spout_size 0) (print_int (pos n)) ≡ ok (size_block n)
unfolding print_int
sprintf-size n small =
    let short = length-print_nat-le n small in
    sprintf-fits (replicate spout_size 0) (print_nat n) (omega (arith, short))
    ∙ ap (λ (t : Bytes). ok (print_nat n ++ 0 ∷ t))
        (drop-replicate (length (print_nat n) + 1) spout_size (99 - length (print_nat n)) 0
          (omega (arith, short)))

-- The spout reads the size back.
size_block-to_int :
    (n : ℕ) → n < 2 ^ 31 → bind (c_string (size_block n)) (λ t. to_int (some t)) ≡ ok (pos n)
unfolding c_string
size_block-to_int n small =
    let tail : Bytes = 0 ∷ replicate (99 - length (print_nat n)) 0 in
    rw (c_string-digits (print_nat n) tail (print_nat-AllDigits n), append-nil (print_nat n))
      (to_int-print_nat n small)

pub picture_bytes-take :
    (img : Bytes) (n : ℕ) → n ≤ length img → picture_bytes img (pos n) ≡ ok (take n img)
unfolding picture_bytes
picture_bytes-take img n room = rw (zero-add n, le→leb n (length img) room) refl

-- The calls up to the connection, for an address.
abbrev pub opening : ℕ → ℕ → Bytes → List Call
opening fd k spout_ip =
    socket_stream
    ∷ parse_address spout_ip
    ∷ find_host spout_ip
    ∷ replicate (suc k) (connect_port (pos fd) spout_port)

pub open_spout-connects :
    (spout_ip : Bytes) (fd a h k c : ℕ) (rest : List Reply) (trace : List Call)
    → 0 < h
    → open_spout spout_ip
        (net (returns fd ∷ returns a ∷ returns h ∷ (replicate k refused ++ returns c ∷ rest)) trace)
      ≡ done (some (pos fd)) (net rest (trace ++ opening fd k spout_ip))
unfolding open_spout
open_spout-connects spout_ip fd a h k c rest trace up =
    let replies = replicate k refused ++ returns c ∷ rest in
    let enough : k < suc (length replies) = omega (
      arith,
      length-append (replicate k refused) (returns c ∷ rest),
      length-replicate {A = Reply} k refused,
    ) in
    let there : (h == 0) ≡ false = ground (arith, up) in
    let start =
      ((trace ++ socket_stream ∷ []) ++ parse_address spout_ip ∷ []) ++ find_host spout_ip ∷ [] in
    rw (there, connect_rounds-replicate k (suc (length replies)) c (pos fd) rest start enough)
      (ap (λ (t : List Call). done (some (pos fd)) (net rest t)) (simp append_assoc))

pub announce_size-block :
    (fd n w r : ℕ) (rest : List Reply) (trace : List Call)
    → n < 2 ^ 31
    → announce_size (pos fd) (pos n) (net (returns w ∷ returns r ∷ rest) trace)
      ≡ done true (
          net rest (
            (trace ++ write_to (pos fd) (size_block n) ∷ []) ++ read_from (pos fd) spout_size ∷ []))
unfolding announce_size
announce_size-block fd n w r rest trace small = rw (sprintf-size n small) refl

write_image-bytes :
    (fd n w r c : ℕ) (img : Bytes) (trace : List Call)
    → n ≤ length img
    → write_image (pos fd) img (pos n) (net (returns w ∷ returns r ∷ returns c ∷ []) trace)
      ≡ done true (
          net [] (
            ((trace ++ write_to (pos fd) (take n img) ∷ []) ++ read_from (pos fd) spout_size ∷ [])
            ++ close_fd (pos fd) ∷ []))
unfolding write_image
write_image-bytes fd n w r c img trace room = rw (picture_bytes-take img n room) refl

regroup :
    (t : List Call) (a b c d e : Call)
    → ((((t ++ a ∷ []) ++ b ∷ []) ++ c ∷ []) ++ d ∷ []) ++ e ∷ [] ≡ t ++ a ∷ b ∷ c ∷ d ∷ e ∷ []
regroup t a b c d e = simp (append_assoc)

length-size_block : (n : ℕ) → n < 2 ^ 31 → length (size_block n) ≡ spout_size
length-size_block n small =
    let rest = 99 - length (print_nat n) in
    omega (
      arith,
      length-append (print_nat n) (0 ∷ replicate rest 0),
      length-replicate {A = ℕ} rest 0,
      length-print_nat-le n small,
    )

-- What the calls answer when the spout refuses `k` connections and then all goes well.
abbrev pub spout_replies : ℕ → ℕ → ℕ → ℕ → ℕ → List Reply
spout_replies fd h k n m =
    returns fd
    ∷ returns 1
    ∷ returns h
    ∷ (replicate k refused
        ++ returns 0 ∷ returns 100 ∷ returns n ∷ returns m ∷ returns n ∷ returns 0 ∷ [])

-- Behind the connection.
abbrev pub handing : ℕ → ℕ → Bytes → List Call
handing fd n img =
    write_to (pos fd) (size_block n)
    ∷ read_from (pos fd) spout_size
    ∷ write_to (pos fd) (take n img)
    ∷ read_from (pos fd) spout_size
    ∷ close_fd (pos fd)
    ∷ []

-- For a picture of n < 2^31 bytes at the start of an array, however often the spout refuses the
-- connection before it accepts it, and when all other calls succeed, the hand-over ends well: behind
-- the connection it writes 100 bytes from which n is read back, and then exactly the picture.
pub hand_over-picture :
    (spout_ip img : Bytes) (fd h k n r a : ℕ)
    → 0 < h
    → n < 2 ^ 31
    → n ≤ length img
    → (hand_over spout_ip img (pos n) (net (spout_replies fd h k r a) [])
        ≡ done true (net [] (opening fd k spout_ip ++ handing fd n img)))
      × (length (size_block n) ≡ spout_size)
      × (bind (c_string (size_block n)) (λ t. to_int (some t)) ≡ ok (pos n))
unfolding hand_over
hand_over-picture spout_ip img fd h k n r a up small room = (
  rw
      (
        open_spout-connects spout_ip fd 1 h k 0
            (returns 100 ∷ returns r ∷ returns a ∷ returns r ∷ returns 0 ∷ []) [] up,
        announce_size-block fd n 100 r (returns a ∷ returns r ∷ returns 0 ∷ [])
            (opening fd k spout_ip) small,
        write_image-bytes fd n a r 0 img _ room,
      )
      (ap (λ (t : List Call). done true (net [] t)) (regroup (opening fd k spout_ip) _ _ _ _ _)),
  length-size_block n small,
  size_block-to_int n small,
)
