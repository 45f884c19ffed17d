-- ===== src/Images/Transmit/Copies.antt =====
-- The answers and the calls of a session of `server_transmit` over a socket with a client that sends as
-- `transmit_child` does, and how the server receives one picture.
use painting_cps.Prelude.{
  ℕ, suc, ◌+◌, ◌-◌, ◌^◌, ◌≤◌, ◌<◌, ◌≡◌, refl, ◌∙◌, ap, sym, ℤ, pos, Bool, List, [], ◌∷◌, ◌++◌, some,
  arith, length, length-append, length-replicate, append_assoc, take-all, replicate,
}
use painting_cps.Exec.{ok, done}
use painting_cps.CText.{Bytes, print_nat}
use painting_cps.MsgDistributor.Frames.Laws.{length-print_nat-le}
use painting_cps.Calls.{
  Call, close_fd, write_to, read_from, create_file, store_file, Reply, Net, net, returns, brings,
  buffer_of,
}
use painting_cps.Images.Info.{info_text, parse_info, new_array, parse_info-file}
use painting_cps.Images.Blocks.{flatten}
use painting_cps.Images.Tcp.{tcp_block}
use painting_cps.Images.Child.Sent.{info_block}
use painting_cps.Images.Child.Stored.{IsName}
use painting_cps.Metrics.{Metrics}
use painting_cps.Images.Transmit.{Transmit, recv_rounds, ok_text, receive_picture, receive_request}
use painting_cps.Images.Transmit.Loop.{part_replies, part_calls, AllFit, recv_rounds-parts}

pub length-part_replies :
    (parts : List Bytes) (rest : List Reply)
    → length (part_replies parts rest) ≡ length parts + length rest
length-part_replies [] rest = omega arith
length-part_replies (b ∷ parts) rest = ground (arith, length-part_replies parts rest)

recv_rounds-cut :
    (sock : ℤ) (raw file : Bytes) (parts : List Bytes) (rest : List Reply) (trace : List Call)
    → flatten parts ≡ file
    → AllFit parts
    → length raw ≡ length file
    → 1 ≤ length file
    → recv_rounds sock
        (suc (length (part_replies parts rest)))
        (pos (length file))
        raw
        0
        (net (part_replies parts rest) trace)
      ≡ done file (net rest (trace ++ part_calls sock parts []))
recv_rounds-cut sock raw file [] rest trace cut fit sized filled =
    absurd (omega (arith, filled, ap length cut))
recv_rounds-cut sock raw file (b ∷ parts) rest trace cut fit sized filled =
    let replies = part_replies (b ∷ parts) rest in
    recv_rounds-parts sock (suc (length replies)) [] raw b parts rest trace (length file) fit
      (sized ∙ ap length (sym cut)) (omega (arith, sized))
      (omega (arith, length-part_replies parts rest))
    ∙ ap (λ (t : Bytes). done t (net rest (trace ++ part_calls sock (b ∷ parts) []))) cut

buffer_of-fits :
    (n : ℕ) (b : Bytes) → length b ≤ n → buffer_of n b ≡ b ++ replicate (n - length b) 0
buffer_of-fits n b fit = ap (λ (t : Bytes). t ++ replicate (n - length t) 0) (take-all n b fit)

-- The server reads the name and the size from the client's array.
info_block-parsed :
    (name : Bytes) (size : ℕ)
    → IsName name
    → size < 2 ^ 31
    → parse_info (buffer_of tcp_block (info_block name size)) ≡ ok (name, pos size)
unfolding info_text
info_block-parsed name size (ne, short, plain) small =
    let text = info_text name size in
    let zeros : Bytes = replicate (tcp_block - length text - 1) 0 in
    let fit : length (info_block name size) ≤ tcp_block = omega (
      arith,
      short,
      length-append name (b',' ∷ print_nat size),
      length-print_nat-le size small,
      length-append text (0 ∷ zeros),
      length-replicate {A = ℕ} (tcp_block - length text - 1) 0,
    ) in
    let pad : Bytes = replicate (tcp_block - length (info_block name size)) 0 in
    ap parse_info
      (buffer_of-fits tcp_block (info_block name size) fit ∙ append_assoc text (0 ∷ zeros) pad)
    ∙ parse_info-file name (zeros ++ pad) size ne short plain small

-- The thread's state with the metrics, the queue, whether `sem_match` is known and its posts.
abbrev pub transmit_at : Metrics → List Bytes → Bool → ℕ → Net → Transmit
transmit_at metrics img_queue known posts net = record {
  net = net;
  metrics = metrics;
  img_queue = img_queue;
  known = known;
  posts = posts;
}

abbrev pub counted_in : Metrics → Metrics
counted_in m = record m { request_submitted = m.request_submitted + 1 }

-- A picture, and the parts in which its file arrives.
pub record SentPicture : Type 0 where
  pub name : Bytes
  pub file : Bytes
  pub parts : List Bytes

-- The answers and the calls of one picture.
abbrev pub picture_replies : ℕ → SentPicture → List Reply → List Reply
picture_replies fp x rest =
    brings tcp_block (info_block x.name (length x.file))
    ∷ returns 3
    ∷ part_replies x.parts (returns 3 ∷ returns fp ∷ returns (length x.file) ∷ rest)

abbrev pub receiving : ℤ → List Bytes → List Call
receiving sock parts =
    read_from sock tcp_block
    ∷ write_to sock ok_text
    ∷ (part_calls sock parts [] ++ write_to sock ok_text ∷ [])

abbrev pub storing : Bytes → Bytes → List Call
storing name file = create_file name ∷ store_file name file ∷ []

-- Pictures that a session can carry.
abbrev pub AllSent : (ℕ → Bytes) → List SentPicture → Type 0
AllSent heap [] = Unit {0}
AllSent heap (x ∷ xs) =
    IsName x.name
    × (1 ≤ length x.file)
    × (length x.file < 2 ^ 31)
    × (length (heap (length x.file)) ≡ length x.file)
    × (flatten x.parts ≡ x.file)
    × AllFit x.parts
    × AllSent heap xs

-- The client hangs up after the last picture.
abbrev pub session_replies : ℕ → List SentPicture → List Reply
session_replies fp [] = returns 0 ∷ returns 0 ∷ []
session_replies fp (x ∷ xs) = picture_replies fp x (session_replies fp xs)

abbrev pub session_calls : ℤ → List SentPicture → List Call
session_calls sock [] = read_from sock tcp_block ∷ close_fd sock ∷ []
session_calls sock (x ∷ xs) =
    (receiving sock x.parts ++ storing x.name x.file) ++ session_calls sock xs

module _ (sock : ℤ) (heap : ℕ → Bytes) (name file : Bytes) (named : IsName name)
    (filled : 1 ≤ length file) (small : length file < 2 ^ 31)
    (sized : length (heap (length file)) ≡ length file) (parts : List Bytes)
    (cut : flatten parts ≡ file) (fit : AllFit parts) where
  receive_picture-file :
      (rest : List Reply) (m : Metrics) (q : List Bytes) (k : Bool) (p : ℕ) (trace : List Call)
      → receive_picture sock heap name
          (pos (length file))
          (transmit_at m q k p (net (part_replies parts (returns 3 ∷ rest)) trace))
        ≡ done (some (name, file, pos (length file))) (
            transmit_at m q k p
              (net rest ((trace ++ part_calls sock parts []) ++ write_to sock ok_text ∷ [])))
  unfolding receive_picture new_array
  receive_picture-file rest m q k p trace =
      rw
        (recv_rounds-cut sock (heap (length file)) file parts (returns 3 ∷ rest) trace cut fit sized
          filled)
        refl

  pub receive_request-file :
      (rest : List Reply) (m : Metrics) (q : List Bytes) (k : Bool) (p : ℕ) (trace : List Call)
      → receive_request sock heap (
          transmit_at m q k p (
            net
              (brings tcp_block (info_block name (length file))
                ∷ returns 3
                ∷ part_replies parts (returns 3 ∷ rest))
              trace))
        ≡ done
            (some (name, file, pos (length file)))
            (transmit_at m q k p (net rest (trace ++ receiving sock parts)))
  unfolding receive_request
  receive_request-file rest m q k p trace =
      rw
        (
          info_block-parsed name (length file) named small,
          receive_picture-file rest m q k p
              ((trace ++ read_from sock tcp_block ∷ []) ++ write_to sock ok_text ∷ []),
        )
        (ap
          (λ (t : List Call).
            done (some (name, file, pos (length file))) (transmit_at m q k p (net rest t)))
          (simp append_assoc))
