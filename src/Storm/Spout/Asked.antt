-- ===== src/Storm/Spout/Asked.antt =====
-- Where the spout is, as its finder answers, and the starter against the server.
use painting_cps.Prelude.{
  ℕ, suc, ◌-◌, ◌<◌, ◌≡◌, ◌≢◌, refl, ap, pos, false, List, [], ◌∷◌, ◌++◌, arith, length, beq_bytes,
  take, take-all, replicate,
}
use painting_cps.Exec.{ok, done}
use painting_cps.CText.{Bytes, codes, c_string}
use painting_cps.CText.Copies.{sprintf-fits}
use painting_cps.CText.Tokens.{IsPlain}
use painting_cps.Results.{def_msg}
use painting_cps.Calls.{
  net, Call, socket_dgram, bind_port, parse_address, close_fd, send_to, read_from, Reply, returns,
  brings, buffer_of,
}
use painting_cps.Storm.Spout.{
  found, server_port, spout_finder_port, datagram_size, read_finding, find_spout,
}

-- A text without a NUL.
abbrev pub HasNoNul : Bytes → Type 0
HasNoNul s = IsPlain 0 s

c_string-plain : (s t : Bytes) → HasNoNul s → c_string (s ++ 0 ∷ t) ≡ ok s
unfolding c_string
c_string-plain [] t h = refl
c_string-plain (c ∷ s) t (nz, _, h) = ground (arith, nz, c_string-plain s t h)

not_none :
    (s t : Bytes) → HasNoNul s → s ≢ codes "none" → beq_bytes (take 5 (s ++ 0 ∷ t)) def_msg ≡ false
unfolding def_msg
not_none [] t h ne = refl
not_none (a ∷ []) t h ne = ground arith
not_none (a ∷ b ∷ []) t h ne = ground arith
not_none (a ∷ b ∷ c ∷ []) t h ne = ground arith
not_none (a ∷ b ∷ c ∷ d ∷ []) t h ne = ground (arith, ne)
not_none (a ∷ b ∷ c ∷ d ∷ e ∷ s) t (ha, _, (hb, _, (hc, _, (hd, _, (he, _, h))))) ne =
    ground (arith, he)

-- The answer in its array.
buffer_of-plain :
    (s : Bytes)
    → length s < datagram_size
    → buffer_of datagram_size s ≡ s ++ 0 ∷ replicate (datagram_size - length s - 1) 0
buffer_of-plain s short =
    let all = take-all datagram_size s (omega (arith, short)) in
    let left : datagram_size - length s ≡ suc (datagram_size - length s - 1) =
      omega (arith, short) in
    rw all (ap (λ (n : ℕ). s ++ replicate n 0) left)

-- The question and its answer.
abbrev pub asking : ℕ → List Call
asking fd =
    socket_dgram
    ∷ bind_port (pos fd) server_port
    ∷ parse_address (codes "127.0.0.1")
    ∷ send_to (pos fd) spout_finder_port (codes "where")
    ∷ read_from (pos fd) datagram_size
    ∷ close_fd (pos fd)
    ∷ []

abbrev pub finder_replies : ℕ → ℕ → Bytes → List Reply
finder_replies fd r text =
    returns fd ∷ returns 0 ∷ returns 1 ∷ returns 5 ∷ brings (suc r) text ∷ returns 0 ∷ []

module _ (old raw : Bytes) (room : 5 < length raw) (fd r : ℕ) where
  -- An address of less than 1024 bytes without a NUL that is not "none" is found as it was sent.
  pub find_spout-address :
      (address : Bytes) (rest : List Reply)
      → HasNoNul address
      → address ≢ codes "none"
      → length address < datagram_size
      → find_spout old raw (net (finder_replies fd r address ++ rest) [])
        ≡ done (found address) (net rest (asking fd))
  unfolding find_spout read_finding c_string
  find_spout-address address rest plain some_address short =
      let zeros : Bytes = replicate (datagram_size - length address - 1) 0 in
      rw (sprintf-fits raw (codes "where") room) (
        rw (buffer_of-plain address short) (
          rw (not_none address zeros plain some_address)
            (unfold c_string in rw (c_string-plain address zeros plain) refl)))
