-- ===== src/MsgDistributor/Protocol.antt =====
-- What `listen` makes of the messages that the other methods send: the two ends agree.
use painting_cps.Prelude.{
  ℕ, ◌+◌, ◌-◌, ◌^◌, ◌≤◌, ◌<◌, ◌≡◌, ◌≢◌, ◌∙◌, ℤ, pos, minus_one, beq_ℤ, beq_ℤ_iff, int_eq, [], ◌∷◌,
  ◌++◌, some, arith, length, append_assoc, drop, false,
}
use painting_cps.Exec.{ok}
use painting_cps.CText.{
  Bytes, Token, codes, print_nat, print_int, overlay, strtok, strtok_next, text_of,
}
use painting_cps.CText.Decimal.{print_nat-AllDigits, print_nat-ne-nil, to_int-print_nat}
use painting_cps.CText.Tokens.{AllDigits-IsPlain, IsPlain, strtok-word}
use painting_cps.CText.Copies.{overlay-fits, slice-behind}
use painting_cps.MsgDistributor.State.{Host, MsgDistributor, max_chunk}
use painting_cps.MsgDistributor.Frames.{sock_text, sock_message, frame_content}
use painting_cps.MsgDistributor.Frames.Laws.{
  id_length-print_nat, length-sock_text, length-sock_message,
}
use painting_cps.MsgDistributor.Methods.{listen, classify, deliver, on_sock}

pub opened_test : (z : ℤ) → z ≢ minus_one → beq_ℤ z minus_one ≡ false
opened_test z h = ground (arith, beq_ℤ_iff z minus_one)

-- The tokens of `word,<id>,<tail>`.
unfoldable pub id_token : (at id : ℕ) → Bytes → Token
id_token at id tail = record {
  at = at;
  text = print_nat id;
  next = at + length (print_nat id) + 1;
  rest = tail;
}

pub strtok-id :
    (at id : ℕ) (tail : Bytes)
    → strtok b',' at (print_nat id ++ b',' ∷ tail) ≡ ok (some (id_token at id tail))
unfolding id_token
strtok-id at id tail =
    strtok-word b',' at (print_nat id) tail (omega arith) (print_nat-ne-nil id)
      (AllDigits-IsPlain (print_nat id) (print_nat-AllDigits id))

-- What stands behind a message in the array that `listen` reads into.
abbrev pub behind : Host → Bytes → Bytes
behind host message = drop (length message) (host.stack max_chunk)

pub overlay-stack :
    (host : Host) (message : Bytes)
    → length message ≤ max_chunk
    → overlay (host.stack max_chunk) message ≡ ok (message ++ behind host message)
overlay-stack host message fits =
    overlay-fits (host.stack max_chunk) message (omega (arith, host.length-stack max_chunk))

-- The first word of `word,<rest>`.
unfoldable pub word_token : Bytes → Bytes → Token
word_token w tail = record { at = 0; text = w; next = 0 + length w + 1; rest = tail }

pub listen-word :
    (host : Host) (d : MsgDistributor) (w rest : Bytes)
    → d.mfsockid ≢ minus_one
    → w ≢ []
    → IsPlain b',' w
    → length (w ++ b',' ∷ rest) ≤ max_chunk
    → let tail = rest ++ behind host (w ++ b',' ∷ rest) in
      listen host (some (w ++ b',' ∷ rest)) d
      ≡ classify host (w ++ b',' ∷ tail) (length (w ++ b',' ∷ rest)) (word_token w tail) d
unfolding listen word_token
listen-word host d w rest opened ne plain fits =
    let message = w ++ b',' ∷ rest in
    rw (
      opened_test d.mfsockid opened,
      overlay-stack host message fits,
      append_assoc w (b',' ∷ rest) (behind host message),
      strtok-word b',' 0 w (rest ++ behind host message) (omega arith) ne plain,
    )

frame_content_lem :
    (id : ℕ) (content tail : Bytes)
    → frame_content
        (sock_message (pos id) (content ++ tail))
        5
        (length (sock_message (pos id) content))
        (length (print_nat id))
      ≡ ok content
unfolding frame_content
frame_content_lem id content tail = ground (
  arith,
  length-sock_message id content,
  append_assoc (print_int (pos id)) (b',' ∷ []) (content ++ tail),
  slice-behind (sock_text (pos id)) content tail (5 + length (print_nat id) + 1)
      (length (sock_message (pos id) content) - length (print_nat id) - 6)
      (omega (arith, length-sock_text id)) (omega (arith, length-sock_message id content)),
)

on_sock_lem :
    (host : Host) (d : MsgDistributor) (id : ℕ) (content tail : Bytes)
    → id < 10 ^ 9
    → on_sock host
        (sock_message (pos id) (content ++ tail))
        (length (sock_message (pos id) content))
        (word_token (codes "sock") (print_nat id ++ b',' ∷ (content ++ tail)))
        d
      ≡ deliver host (pos id) content d
unfolding on_sock word_token id_token strtok_next text_of
on_sock_lem host d id content tail small = rw (
  strtok-id 5 id (content ++ tail),
  to_int-print_nat id (omega arith),
  id_length-print_nat id small,
  frame_content_lem id content tail,
)

-- `listen` brings such a message to `on_sock`.
listen_sock :
    (host : Host) (d : MsgDistributor) (id : ℕ) (content : Bytes)
    → d.mfsockid ≢ minus_one
    → length (sock_message (pos id) content) ≤ max_chunk
    → let tail = content ++ behind host (sock_message (pos id) content) in
      listen host (some (sock_message (pos id) content)) d
      ≡ on_sock host
          (sock_message (pos id) tail)
          (length (sock_message (pos id) content))
          (word_token (codes "sock") (print_nat id ++ b',' ∷ tail))
          d
unfolding classify print_int word_token
listen_sock host d id content opened fits = rw (
  listen-word host d (codes "sock") (print_nat id ++ b',' ∷ content) opened (cc) (omega arith) fits,
  append_assoc (print_nat id) (b',' ∷ content) _,
)

-- A message `sock,<id>,<content>` delivers exactly the content to socket `id`, whatever bytes the
-- content holds.
pub listen-sock_message :
    (host : Host) (d : MsgDistributor) (id : ℕ) (content : Bytes)
    → d.mfsockid ≢ minus_one
    → id < 10 ^ 9
    → length (sock_message (pos id) content) ≤ max_chunk
    → listen host (some (sock_message (pos id) content)) d ≡ deliver host (pos id) content d
listen-sock_message host d id content opened small fits =
    let tail = behind host (sock_message (pos id) content) in
    listen_sock host d id content opened fits ∙ on_sock_lem host d id content tail small
