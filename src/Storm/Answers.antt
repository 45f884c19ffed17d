-- ===== src/Storm/Answers.antt =====
-- With Storm a client gets the answer that the server's own matcher would give.
use painting_cps.Prelude.{
  ℕ, suc, ◌-◌, ◌^◌, ◌<◌, ◌≡◌, refl, ◌∙◌, ℤ, pos, int_eq, ◌==◌, ◌+◌, leb, if◌then◌else◌, Bool-cases,
  ap, drop, List, [], ◌∷◌, ◌++◌, some, Option, arith, length, length-append, append_assoc, take-all,
  replicate, length-replicate, inl, inr,
}
use painting_cps.Exec.{ok, bind, done, Result-cases}
use painting_cps.CText.{Bytes, codes, print_nat, c_string, sprintf, overlay}
use painting_cps.CText.Decimal.{AllDigits, print_nat-AllDigits, print_nat-ne-nil}
use painting_cps.CText.Tokens.{AllDigits-IsPlain, strtok-word}
use painting_cps.CText.Copies.{overlay-fits, sprintf-fits, drop-replicate}
use painting_cps.CText.Stoi.{stoi-print_nat}
use painting_cps.MsgDistributor.Frames.Laws.{length-print_nat-le}
use painting_cps.ImgMatch.Vision.{Vision}
use painting_cps.ImgMatch.Match.{ImgMatch, match_img}
use painting_cps.Results.{def_msg, result_message, send_info, send_info_size}
use painting_cps.Metrics.{Metrics, finish_request}
use painting_cps.Storm.Match.{output, match_text, match_text-match_img}
use painting_cps.Storm.Relay.{
  Answering, result_size, result_buffer, relay_size, relay_message, relay_round,
}

pub c_string-digits :
    (s t : Bytes) → AllDigits s → c_string (s ++ t) ≡ bind (c_string t) (λ u. ok (s ++ u))
unfolding c_string
c_string-digits [] t h = elim (Result-cases (c_string t)) [
  | inl (u, e) ↦ rw e refl
  | inr (x, e) ↦ rw e refl
]
c_string-digits (c ∷ s) t (hc, hs) =
    ground (arith, hc, c_string-digits s t hs, Result-cases (c_string t))

length-output : (i : ℕ) → i < 2 ^ 31 → length (output i) < result_size
unfolding output
length-output i h =
    omega (arith, length-append (print_nat i) (codes ",0,0,0,0,0,0,0,0,"), length-print_nat-le i h)

-- The array behind an answer.
abbrev behind : ℕ → Bytes
behind i = replicate (result_size - length (output i) - 1) 0

result_buffer-output :
    (i : ℕ) → i < 2 ^ 31 → result_buffer (output i) ≡ ok (output i ++ 0 ∷ behind i)
unfolding result_buffer
result_buffer-output i h =
    rw
      (
        take-all result_size (output i) (omega (arith, length-output i h)),
        overlay-fits (replicate result_size 0) (output i)
            (omega (arith, length-output i h, length-replicate {A = ℕ} result_size 0)),
        drop-replicate (length (output i)) result_size (suc (result_size - length (output i) - 1)) 0
            (omega (arith, length-output i h)),
      )
      refl

relay_message-output :
    (get_info : ℤ → Bytes) (stack : ℕ → Bytes) (tail : Bytes) (i : ℕ)
    → i < 2 ^ 31
    → relay_message get_info stack (output i ++ 0 ∷ tail)
      ≡ (if i == 0 then ok def_msg else sprintf (stack relay_size) (send_info (get_info (pos i)) i))
unfolding relay_message output send_info c_string
relay_message-output get_info stack tail i h =
    let end = codes ",0,0,0,0,0,0,0,0," in
    rw
      (
        append_assoc (print_nat i) end (0 ∷ tail),
        c_string-digits (print_nat i) (end ++ 0 ∷ tail) (print_nat-AllDigits i),
        strtok-word b',' 0 (print_nat i) (codes "0,0,0,0,0,0,0,0," ++ 0 ∷ tail) (omega arith)
            (print_nat-ne-nil i) (AllDigits-IsPlain (print_nat i) (print_nat-AllDigits i)),
        stoi-print_nat i h,
      )
      refl

-- What stands behind the NUL does not matter.
c_string-nul : (s t u : Bytes) → c_string (s ++ 0 ∷ t) ≡ c_string (s ++ 0 ∷ u)
unfolding c_string
c_string-nul [] t u = refl
c_string-nul (c ∷ s) t u = rw (c_string-nul s t u) refl

-- A text that was printed fits the array.
sprintf-room : (raw text message : Bytes) → sprintf raw text ≡ ok message → length text < length raw
unfolding sprintf overlay
sprintf-room raw text message e = elim (Bool-cases (leb (length (text ++ 0 ∷ [])) (length raw))) [
  | inl fits ↦ ground (arith, fits, length-append text (0 ∷ []))
  | inr too_long ↦ absurd (ground (arith, rw too_long at e))
]

module _ (get_info : ℤ → Bytes) (stack : ℕ → Bytes)
    (sized : length (stack send_info_size) ≡ send_info_size)
    (longer : length (stack relay_size) ≡ relay_size) where
  -- The relay's message has the text of the server's own.
  relay_message-text :
      (i : ℕ) (tail message : Bytes)
      → i < 2 ^ 31
      → result_message (λ n. get_info (pos n)) stack i ≡ ok message
      → (relayed : Bytes) × (relay_message get_info stack (output i ++ 0 ∷ tail) ≡ ok relayed)
        × (c_string relayed ≡ c_string message)
  unfolding result_message
  relay_message-text i tail message small answer = elim (Bool-cases (i == 0)) [
    | inl nothing ↦ (
      message,
      relay_message-output get_info stack tail i small ∙ rw nothing (rw nothing at answer),
      refl,
    )
    | inr found ↦
        let text = send_info (get_info (pos i)) i in
        let printed : sprintf (stack send_info_size) text ≡ ok message = rw found at answer in
        let room = sprintf-room (stack send_info_size) text message printed in
        let same : text ++ 0 ∷ drop (length text + 1) (stack send_info_size) ≡ message =
          ground (arith, sprintf-fits (stack send_info_size) text room, printed) in
        let rest = drop (length text + 1) (stack relay_size) in
        (
          text ++ 0 ∷ rest,
          relay_message-output get_info stack tail i small
              ∙ rw found
                  (sprintf-fits (stack relay_size) text (omega (arith, room, sized, longer))),
          c_string-nul text rest _ ∙ ap c_string same,
        )
  ]

  -- A round of the relay for such a datagram.
  relay_round-output :
      (file message : Bytes) (rest : List Bytes) (i : ℕ) (s : Answering) (m : Metrics)
      → i < 2 ^ 31
      → s.img_queue ≡ file ∷ rest
      → relay_message get_info stack (output i ++ 0 ∷ behind i) ≡ ok message
      → finish_request s.metrics ≡ ok m
      → relay_round get_info stack (some (output i)) s
        ≡ done tt (record { img_queue = rest; sent = s.sent ++ message ∷ []; metrics = m })
  unfolding relay_round
  relay_round-output file message rest i s m small queued answer counted =
      rw (queued, result_buffer-output i small, answer, counted) refl

-- Storm answers a picture that it decodes with a datagram from which one round of the relay takes
-- the first name off the queue, counts one request as finished, and sends the client a message with
-- the text of the one that result_child makes, in its smaller array, of the server's matcher, run with
-- the same picture and Storm's share of descriptors, if result_child can make it, for an index below
-- 2^31 and a count that does not overflow.
pub storm-answers :
    {Image Descriptor Distance : Type 0} (v : Vision Image Descriptor Distance)
    (imdecode : Bytes → Option Image) (get_info : ℤ → Bytes) (stack : ℕ → Bytes)
    (img add file message : Bytes) (src : Image) (m n : ImgMatch Descriptor) (rest : List Bytes)
    (s : Answering) (k : Metrics)
    → length (stack send_info_size) ≡ send_info_size
    → length (stack relay_size) ≡ relay_size
    → imdecode img ≡ some src
    → v.imread add ≡ some src
    → match_img v add m ≡ ok n
    → n.matched_img_index < 2 ^ 31
    → result_message (λ i. get_info (pos i)) stack n.matched_img_index ≡ ok message
    → s.img_queue ≡ file ∷ rest
    → finish_request s.metrics ≡ ok k
    → (datagram : Bytes) × (relayed : Bytes) × (match_text v imdecode img (length img) m
        ≡ ok (n, datagram))
      × (relay_round get_info stack (some datagram) s
          ≡ done tt (record { img_queue = rest; sent = s.sent ++ relayed ∷ []; metrics = k }))
      × (c_string relayed ≡ c_string message)
storm-answers v imdecode get_info stack img add file message src m n rest s k sized longer decoded
      read matched small answer queued counted =
    let i = n.matched_img_index in
    let (relayed, made, same) =
      relay_message-text get_info stack sized longer i (behind i) message small answer in
    (
      output i,
      relayed,
      match_text-match_img v imdecode img add src m decoded read ∙ rw matched refl,
      relay_round-output get_info stack sized longer file relayed rest i s k small queued made
          counted,
      same,
    )
