-- ===== src/Storm/Spout/Alike.antt =====
-- For the same picture the spout gets the same messages from the starter as from the server.
use painting_cps.Prelude.{
  ℕ, zero, suc, ◌^◌, ◌==◌, ◌<◌, ◌≡◌, ◌≢◌, refl, ◌∙◌, ap, ℤ, pos, true, false, List, [], ◌∷◌, ◌++◌,
  arith, length, append_assoc, append-nil, take, take-all, drop-all, replicate,
}
use painting_cps.Exec.{ok, done}
use painting_cps.CText.{Bytes, codes, overlay}
use painting_cps.CText.Copies.{overlay-fits}
use painting_cps.Calls.{
  net, Call, socket_dgram, bind_port, connect_port, close_fd, write_to, read_from, stat_file,
  open_file, Reply, Net, returns, brings,
}
use painting_cps.Storm.Spout.{server_port, datagram_size, spout_port, spout_size, hand_over}
use painting_cps.Storm.Spout.Delivered.{
  refused, opening, handing, size_block, spout_replies, open_spout-connects, announce_size-block,
  hand_over-picture,
}
use painting_cps.Storm.Spout.Starter.{image_name, wait_result, send_file, transmit_file, starter}
use painting_cps.Storm.Spout.Asked.{HasNoNul, asking, finder_replies, find_spout-address}

-- The messages that a run writes.
abbrev pub written : List Call → List Bytes
written [] = []
written (write_to fd b ∷ calls) = b ∷ written calls
written (c ∷ calls) = written calls

written-append : (xs ys : List Call) → written (xs ++ ys) ≡ written xs ++ written ys
written-append [] ys = refl
written-append (write_to fd b ∷ xs) ys = ap (λ (bs : List Bytes). b ∷ bs) (written-append xs ys)
written-append (c ∷ xs) ys = written-append xs ys

written-connects : (k : ℕ) (fd : ℤ) → written (replicate k (connect_port fd spout_port)) ≡ []
written-connects zero fd = refl
written-connects (suc k) fd = written-connects k fd

-- What the calls of the starter answer from the connection on: the file is there, and all goes well.
abbrev pub reading_replies : ℕ → ℕ → Bytes → List Reply
reading_replies fd fp file =
    returns (length file)
    ∷ returns 100
    ∷ returns 3
    ∷ brings fp file
    ∷ returns (length file)
    ∷ returns 0
    ∷ returns fd
    ∷ returns 0
    ∷ returns 10
    ∷ returns 0
    ∷ []

-- The answers behind the finder's: the spout refuses `k` connections.
abbrev pub file_replies : ℕ → ℕ → ℕ → ℕ → Bytes → List Reply
file_replies fd h k fp file =
    returns fd
    ∷ returns 1
    ∷ returns h
    ∷ (replicate k refused ++ returns 0 ∷ reading_replies fd fp file)

module _ (stack : ℕ → Bytes) (file : Bytes)
    (sized : length (stack (length file)) ≡ length file) where
  read_whole : overlay (stack (length file)) (take (length file) file) ≡ ok file
  read_whole = rw (take-all (length file) file (omega arith)) (
      overlay-fits (stack (length file)) file (omega (arith, sized))
      ∙ ap (λ (t : Bytes). ok (file ++ t))
          (drop-all (length file) (stack (length file)) (omega (arith, sized)))
      ∙ ap (λ (t : Bytes). ok t) (append-nil file))

  -- The calls from the connection on.
  abbrev sending : ℕ → List Call
  sending fd =
      stat_file image_name
      ∷ write_to (pos fd) (size_block (length file))
      ∷ read_from (pos fd) spout_size
      ∷ open_file image_name
      ∷ write_to (pos fd) file
      ∷ close_fd (pos fd)
      ∷ socket_dgram
      ∷ bind_port (pos fd) server_port
      ∷ read_from (pos fd) datagram_size
      ∷ close_fd (pos fd)
      ∷ []

  transmit_file-whole :
      (fd fp : ℕ) (trace : List Call)
      → length file < 2 ^ 31
      → 0 < fp
      → transmit_file stack (pos fd) (net (reading_replies fd fp file) trace)
        ≡ done (pos 0) (net [] (trace ++ sending fd))
  unfolding transmit_file send_file wait_result
  transmit_file-whole fd fp trace small there =
      let rest =
        brings fp file
        ∷ returns (length file)
        ∷ returns 0
        ∷ returns fd
        ∷ returns 0
        ∷ returns 10
        ∷ returns 0
        ∷ [] in
      let far : (fp == 0) ≡ false = ground (arith, there) in
      rw
        (
          announce_size-block fd (length file) 100 3 rest (trace ++ stat_file image_name ∷ [])
              small,
          far,
          read_whole,
        )
        (ap (λ (t : List Call). done (pos 0) (net [] t)) (simp append_assoc))

  -- When the finder names the spout's address, the spout accepts after some refusals and all other
  -- calls succeed, the starter ends with 0, and behind its question it writes to the spout what the
  -- server writes when it hands over a picture with the file's bytes, for a file below 2^31 bytes
  -- and an address of less than 1024 bytes without a NUL that is not "none".
  pub starter-hand_over :
      (address : Bytes) (d r fd h k fp w : ℕ)
      → length (stack datagram_size) ≡ datagram_size
      → HasNoNul address
      → address ≢ codes "none"
      → length address < datagram_size
      → length file < 2 ^ 31
      → 0 < h
      → 0 < fp
      → (t u : Net) × (starter stack
            (net (finder_replies d r address ++ file_replies fd h k fp file) [])
          ≡ done (pos 0) t)
        × (hand_over address file (pos (length file)) (net (spout_replies fd h k 3 w) [])
            ≡ done true u)
        × (written t.trace ≡ written u.trace)
        × (written u.trace ≡ size_block (length file) ∷ file ∷ [])
  unfolding starter
  starter-hand_over address d r fd h k fp w buffer plain some_address short small up there =
      let tries = replicate k (connect_port (pos fd) spout_port) in
      (
        net [] (asking d ++ (opening fd k address ++ sending fd)),
        net [] (opening fd k address ++ handing fd (length file) file),
        rw
            (
              find_spout-address [] (stack datagram_size) (omega (arith, buffer)) d r address
                  (file_replies fd h k fp file) plain some_address short,
              open_spout-connects address fd 1 h k 0 (reading_replies fd fp file) (asking d) up,
              transmit_file-whole fd fp (asking d ++ opening fd k address) small there,
            )
            (ap (λ (t : List Call). done (pos 0) (net [] t))
              (append_assoc (asking d) (opening fd k address) (sending fd))),
        (hand_over-picture address file fd h k (length file) 3 w up small (omega arith)).0,
        rw
            (
              written-append tries (sending fd),
              written-append tries (handing fd (length file) file),
              take-all (length file) file (omega arith),
            )
            refl,
        rw
            (
              written-append tries (handing fd (length file) file),
              written-connects k (pos fd),
              take-all (length file) file (omega arith),
            )
            refl,
      )
