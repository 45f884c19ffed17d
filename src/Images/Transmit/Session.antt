-- ===== src/Images/Transmit/Session.antt =====
-- A whole session of `server_transmit` over a socket, without Storm.
use painting_cps.Prelude.{
  ℕ, zero, suc, ◌+◌, ◌≤◌, ◌<◌, ◌≡◌, refl, sym, ◌∙◌, ℤ, true, false, Bool, int_max, List, [], ◌∷◌,
  ◌++◌, map, arith, length, append_assoc, append-nil,
}
use painting_cps.Exec.{done}
use painting_cps.CText.{Bytes}
use painting_cps.Calls.{Call, write_to, net, returns}
use painting_cps.Metrics.{Metrics}
use painting_cps.Images.Transmit.{ok_text, transmit_rounds, server_transmit}
use painting_cps.Images.Transmit.Copies.{
  transmit_at, counted_in, receiving, storing, SentPicture, AllSent, session_replies, session_calls,
  length-part_replies,
}
use painting_cps.Images.Transmit.Rounds.{transmit_rounds-picture, transmit_rounds-end}

abbrev pub counted_by : ℕ → Metrics → Metrics
counted_by n m = record m { request_submitted = m.request_submitted + n }

abbrev pub names : List SentPicture → List Bytes
names xs = map (λ (x : SentPicture). x.name) xs

length-session_replies :
    (fp : ℕ) (xs : List SentPicture) → length xs < length (session_replies fp xs)
length-session_replies fp [] = omega arith
length-session_replies fp (x ∷ xs) = omega (
  arith,
  length-session_replies fp xs,
  length-part_replies x.parts
      (returns 3 ∷ returns fp ∷ returns (length x.file) ∷ session_replies fp xs),
)

same_end :
    (m : Metrics) (s₁ s₂ : ℕ) (q₁ q₂ : List Bytes) (p₁ p₂ : ℕ) (t₁ t₂ : List Call)
    → s₁ ≡ s₂
    → q₁ ≡ q₂
    → p₁ ≡ p₂
    → t₁ ≡ t₂
    → done tt (transmit_at (record m { request_submitted = s₁ }) q₁ true p₁ (net [] t₁))
      ≡ done tt (transmit_at (record m { request_submitted = s₂ }) q₂ true p₂ (net [] t₂))
same_end m s₁ s₂ q₁ q₂ p₁ p₂ t₁ t₂ s q p t = rw (s, q, p, t) refl

module _ (heap : ℕ → Bytes) (kafka run : Bool) (spout_ip : Bytes) (sock : ℤ) (fp : ℕ)
    (there : 0 < fp) where
  transmit_rounds-session :
      (f : ℕ) (xs : List SentPicture) (m : Metrics) (q : List Bytes) (p : ℕ) (trace : List Call)
      → AllSent heap xs
      → m.request_submitted + length xs ≤ int_max
      → length xs < f
      → transmit_rounds false kafka run spout_ip heap sock f
          (transmit_at m q true p (net (session_replies fp xs) trace))
        ≡ done tt (
            transmit_at
              (counted_by (length xs) m)
              (q ++ names xs)
              true
              (p + length xs + 1)
              (net [] (trace ++ session_calls sock xs)))
  transmit_rounds-session zero xs m q p trace sent room fuel = absurd (omega (arith, fuel))
  transmit_rounds-session (suc f) [] m q p trace sent room fuel =
      transmit_rounds-end heap kafka run spout_ip sock fp there f m q p trace
      ∙ same_end m _ _ q (q ++ []) (p + 1) (p + 0 + 1) _ _ (omega arith) (sym (append-nil q))
          (omega arith) refl
  transmit_rounds-session (suc f) (x ∷ xs) m q p trace (named, filled, small, sized, cut, fit, sent)
        room fuel =
      let calls = receiving sock x.parts ++ storing x.name x.file in
      transmit_rounds-picture heap kafka run spout_ip sock fp there f x xs (session_replies fp xs) m
        q true p trace (named, filled, small, sized, cut, fit, sent) (omega (arith, room))
      ∙ transmit_rounds-session f xs (counted_in m) (q ++ x.name ∷ []) (p + 1) (trace ++ calls) sent
          (omega (arith, room)) (omega (arith, fuel))
      ∙ same_end m _ _ _ _ _ _ _ _ (omega arith) (append_assoc q (x.name ∷ []) (names xs))
          (omega arith) (append_assoc trace calls (session_calls sock xs))

  -- When a client sends the announcement and the file of one picture or more as `transmit_child` does
  -- and then hangs up, however the stream cuts the files into parts of at most 1024 bytes, the thread
  -- of a server without Storm ends: it stored every picture's whole file under the announced name,
  -- queued the names in the order of the pictures, counted one request for each, and posted the result
  -- thread once for each and once more at the end. The names are not empty, shorter than 60 bytes and
  -- without comma or NUL, the files not empty and below 2^31 bytes, the parts not empty, the new arrays
  -- have the files' sizes, all calls succeed and the requests stay below 2^31.
  pub server_transmit-session :
      (x : SentPicture) (xs : List SentPicture) (m : Metrics) (posts : ℕ)
      → AllSent heap (x ∷ xs)
      → m.request_submitted + length (x ∷ xs) ≤ int_max
      → server_transmit false kafka run spout_ip heap sock
          (transmit_at m [] false posts (net (returns 3 ∷ session_replies fp (x ∷ xs)) []))
        ≡ done tt (
            transmit_at
              (counted_by (length (x ∷ xs)) m)
              (names (x ∷ xs))
              true
              (posts + length (x ∷ xs) + 1)
              (net [] (write_to sock ok_text ∷ session_calls sock (x ∷ xs))))
  unfolding server_transmit
  server_transmit-session x xs m posts (named, filled, small, sized, cut, fit, sent) room =
      let calls = receiving sock x.parts ++ storing x.name x.file in
      let start = write_to sock ok_text ∷ [] in
      transmit_rounds-picture heap kafka run spout_ip sock fp there
        (length (session_replies fp (x ∷ xs))) x xs (session_replies fp xs) m [] false posts start
        (named, filled, small, sized, cut, fit, sent) (omega (arith, room))
      ∙ transmit_rounds-session (length (session_replies fp (x ∷ xs))) xs (counted_in m)
          (x.name ∷ []) (posts + 1) (start ++ calls) sent (omega (arith, room))
          (omega (arith, length-session_replies fp (x ∷ xs)))
      ∙ same_end m _ _ _ _ _ _ _ _ (omega arith) refl (omega arith) refl
