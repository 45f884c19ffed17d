-- ===== src/Images/Transmit/Rounds.antt =====
-- The rounds of `server_transmit` over a socket, without Storm: one that keeps a picture, and the last.
use painting_cps.Prelude.{
  ℕ, suc, ◌+◌, ◌==◌, ◌<◌, ◌≡◌, refl, ap, ℤ, pos, true, false, Bool, int_max, List, [], ◌∷◌, ◌++◌,
  arith, length, append_assoc, take-all, ltb,
}
use painting_cps.Exec.{done}
use painting_cps.CText.{Bytes}
use painting_cps.Calls.{Call, close_fd, read_from, Reply, net, returns}
use painting_cps.Images.Tcp.{tcp_block}
use painting_cps.Metrics.{Metrics, submit_request}
use painting_cps.Storm.Spout.{kept, keep_picture}
use painting_cps.Storm.Spout.Delivered.{picture_bytes-take}
use painting_cps.Images.Transmit.{receive_request, leave, finish_round, transmit_rounds}
use painting_cps.Images.Transmit.Copies.{
  transmit_at, counted_in, receiving, storing, SentPicture, AllSent, picture_replies,
  session_replies, session_calls, receive_request-file,
}

module _ (kafka run : Bool) (spout_ip : Bytes) (fp : ℕ) (name file : Bytes) (there : 0 < fp) where
  finish_round-stored :
      (rest : List Reply) (m : Metrics) (q : List Bytes) (k : Bool) (p : ℕ) (trace : List Call)
      → m.request_submitted < int_max
      → finish_round false kafka run spout_ip name file
          (pos (length file))
          (transmit_at m q k p (net (returns fp ∷ returns (length file) ∷ rest) trace))
        ≡ done kept (
            transmit_at
              (counted_in m)
              (q ++ name ∷ [])
              true
              (p + 1)
              (net rest (trace ++ storing name file)))
  unfolding finish_round submit_request keep_picture
  finish_round-stored rest m q k p trace room =
      let below : ltb m.request_submitted int_max ≡ true = ground (arith, room) in
      let opened : (fp == 0) ≡ false = ground (arith, there) in
      rw
        (
          below,
          opened,
          picture_bytes-take file (length file) (omega arith),
          take-all (length file) file (omega arith),
        )
        (ap
          (λ (t : List Call).
            done kept (transmit_at (counted_in m) (q ++ name ∷ []) true (p + 1) (net rest t)))
          (simp append_assoc))

module _ (heap : ℕ → Bytes) (kafka run : Bool) (spout_ip : Bytes) (sock : ℤ) (fp : ℕ)
    (there : 0 < fp) where
  pub transmit_rounds-picture :
      (f : ℕ) (x : SentPicture) (xs : List SentPicture) (rest : List Reply) (m : Metrics)
      (q : List Bytes) (k : Bool) (p : ℕ) (trace : List Call)
      → AllSent heap (x ∷ xs)
      → m.request_submitted < int_max
      → transmit_rounds false kafka run spout_ip heap sock
          (suc f)
          (transmit_at m q k p (net (picture_replies fp x rest) trace))
        ≡ transmit_rounds false kafka run spout_ip heap sock f (
            transmit_at
              (counted_in m)
              (q ++ x.name ∷ [])
              true
              (p + 1)
              (net rest (trace ++ (receiving sock x.parts ++ storing x.name x.file))))
  unfolding transmit_rounds
  transmit_rounds-picture f x xs rest m q k p trace (named, filled, small, sized, cut, fit, sent)
        room =
      rw
        (
          receive_request-file sock heap x.name x.file named filled small sized x.parts cut fit
              (returns fp ∷ returns (length x.file) ∷ rest) m q k p trace,
          finish_round-stored kafka run spout_ip fp x.name x.file there rest m q k p
              (trace ++ receiving sock x.parts) room,
          append_assoc trace (receiving sock x.parts) (storing x.name x.file),
        )
        refl

  pub transmit_rounds-end :
      (f : ℕ) (m : Metrics) (q : List Bytes) (p : ℕ) (trace : List Call)
      → transmit_rounds false kafka run spout_ip heap sock
          (suc f)
          (transmit_at m q true p (net (session_replies fp []) trace))
        ≡ done tt (transmit_at m q true (p + 1) (net [] (trace ++ session_calls sock [])))
  unfolding transmit_rounds receive_request leave
  transmit_rounds-end f m q p trace =
      ap (λ (t : List Call). done tt (transmit_at m q true (p + 1) (net [] t)))
        (append_assoc trace (read_from sock tcp_block ∷ []) (close_fd sock ∷ []))
