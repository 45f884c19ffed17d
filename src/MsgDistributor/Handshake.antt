-- ===== src/MsgDistributor/Handshake.antt =====
-- The commands: what `listen` does at one end with `create`, `accepted` and `close` from the other.
use painting_cps.Prelude.{
  ℕ, ◌+◌, ◌^◌, ◌≤◌, ◌<◌, ◌≡◌, ◌≢◌, pos, minus_one, [], ◌∷◌, ◌++◌, some, arith, true, length,
  length-append, append_assoc, drop,
}
use painting_cps.Exec.{done, ◌>>◌, pure}
use painting_cps.CText.{Bytes, codes, print_nat, print_int, strtok_next, text_of}
use painting_cps.CText.Decimal.{to_int-print_nat}
use painting_cps.CText.Tokens.{strtok-last}
use painting_cps.MsgDistributor.State.{Host, MsgDistributor, max_chunk, buffer_size}
use painting_cps.MsgDistributor.Frames.{create_text, accepted_text, close_text}
use painting_cps.MsgDistributor.Frames.Laws.{command_frame_lem, length-print_nat-le}
use painting_cps.MsgDistributor.Methods.{listen, classify, on_accepted, on_close, close}
use painting_cps.MsgDistributor.Protocol.{
  opened_test, behind, overlay-stack, listen-word, strtok-id, word_token, id_token,
}

-- What a command leaves in its array behind the NUL.
abbrev pub padding : Host → Bytes → Bytes
padding host text = drop (length text + 1) (host.stack buffer_size)

abbrev pub frame : Host → Bytes → Bytes
frame host text = text ++ 0 ∷ padding host text

frame-fits :
    (host : Host) (text : Bytes) → length text < buffer_size → length (frame host text) ≤ max_chunk
frame-fits host text h = omega (arith, (command_frame_lem host text h).1)

-- A create command of the peer counts one connection to accept, for an initialised object.
pub listen-create :
    (sender receiver : Host) (d : MsgDistributor)
    → d.mfsockid ≢ minus_one
    → listen receiver (some (frame sender create_text)) d
      ≡ done (pos 0) (record d { accept_sem = d.accept_sem + 1 })
unfolding listen classify
listen-create sender receiver d opened =
    let message = frame sender create_text in
    rw (
      opened_test d.mfsockid opened,
      overlay-stack receiver message (frame-fits sender create_text (omega arith)),
      strtok-last b',' 0 create_text (padding sender create_text ++ behind receiver message)
          (omega arith) (cc) (omega arith),
    )

pub numbered_fits :
    (w : Bytes) (id : ℕ)
    → length w ≤ 8
    → id < 2 ^ 31
    → length (w ++ b',' ∷ (print_nat id ++ b',' ∷ [])) < buffer_size
numbered_fits w id hw h = omega (
  arith,
  length-append w (b',' ∷ (print_nat id ++ b',' ∷ [])),
  length-append (print_nat id) (b',' ∷ []),
  length-print_nat-le id h,
)

-- An accepted command of the peer queues its id and posts connect_sem, for an id below 2^31 and an
-- initialised object.
pub listen-accepted :
    (sender receiver : Host) (d : MsgDistributor) (id : ℕ)
    → d.mfsockid ≢ minus_one
    → id < 2 ^ 31
    → listen receiver (some (frame sender (accepted_text (pos id)))) d
      ≡ done (pos 0) (record d {
        connect_queue = d.connect_queue ++ pos id ∷ [];
        connect_sem = d.connect_sem + 1;
      })
unfolding classify on_accepted strtok_next text_of word_token id_token print_int
listen-accepted sender receiver d id opened small =
    let text = accepted_text (pos id) in
    let fits = numbered_fits (codes "accepted") id (omega arith) small in
    rw (
      append_assoc (print_nat id) (b',' ∷ []) (0 ∷ padding sender text),
      listen-word receiver d (codes "accepted") (print_nat id ++ b',' ∷ 0 ∷ padding sender text)
          opened (cc) (omega arith)
          (rw (← append_assoc (print_nat id) (b',' ∷ []) (0 ∷ padding sender text))
            (frame-fits sender text fits)),
      append_assoc (print_nat id) (b',' ∷ 0 ∷ padding sender text) _,
      strtok-id 9 id _,
      to_int-print_nat id small,
    )

-- A close command of the peer closes the connection at this end without an answer, for an id below
-- 2^31 and an initialised object.
pub listen-close :
    (sender receiver : Host) (d : MsgDistributor) (id : ℕ)
    → d.mfsockid ≢ minus_one
    → id < 2 ^ 31
    → listen receiver (some (frame sender (close_text (pos id)))) d
      ≡ (close receiver (pos id) true >> pure (pos 0)) d
unfolding classify on_close strtok_next text_of word_token id_token print_int
listen-close sender receiver d id opened small =
    let text = close_text (pos id) in
    let fits = numbered_fits (codes "close") id (omega arith) small in
    rw (
      append_assoc (print_nat id) (b',' ∷ []) (0 ∷ padding sender text),
      listen-word receiver d (codes "close") (print_nat id ++ b',' ∷ 0 ∷ padding sender text) opened
          (cc) (omega arith)
          (rw (← append_assoc (print_nat id) (b',' ∷ []) (0 ∷ padding sender text))
            (frame-fits sender text fits)),
      append_assoc (print_nat id) (b',' ∷ 0 ∷ padding sender text) _,
      strtok-id 6 id _,
      to_int-print_nat id small,
    )
