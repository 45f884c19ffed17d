-- ===== src/Images/Tcp.antt =====
-- A picture over a stream socket: the client writes what `fread` gives, the server collects what
-- `recv` gives, which need not be cut the same way.
use painting_cps.Prelude.{
  ℕ, suc, ◌+◌, ◌^◌, ◌<◌, ◌≡◌, ◌≢◌, ℤ, pos, List, [], ◌∷◌, ◌++◌, Option, none, some, beq_ℤ,
  if◌then◌else◌, length, drop, arith, length-append, length-drop, drop-all, append_assoc,
  append-nil, ap, map, ◌∙◌, sym,
}
use painting_cps.Exec.{Result, ok, bind}
use painting_cps.CText.{Bytes, write_at}
use painting_cps.CText.Tokens.{IsPlain}
use painting_cps.CText.Copies.{write_at-behind}
use painting_cps.Images.Info.{parse_info, info_text, new_array, parse_info-file}
use painting_cps.Images.Blocks.{fread_blocks, flatten, NonEmpty, flatten-fread_blocks}

-- What one `recv` gives: an error, or bytes, none of them at the end of the stream.
abbrev pub Arrival : Type 0
Arrival = Option Bytes

-- `sizeof(bufferSend)`.
abbrev pub tcp_block : ℕ
tcp_block = 1024

-- The client's calls of `send` for a file, while none of them fails.
unfoldable pub send_tcp : Bytes → List Bytes
send_tcp file = fread_blocks (suc (length file)) tcp_block file

-- The loop leaves with the array and the arrivals it did not read, or waits for more.
pub data Received : Type 0 where
  received : Bytes → List Arrival → Received
  waiting : Bytes → ℕ → Received

-- The receive loop. The test for the last part comes before the copy, as a flag.
unfoldable pub receive_tcp : ℤ → Bytes → ℕ → List Arrival → Result Received
receive_tcp file_size img offset [] = ok (waiting img offset)
receive_tcp file_size img offset (none ∷ rest) = ok (received img rest)
receive_tcp file_size img offset (some [] ∷ rest) = ok (received img rest)
receive_tcp file_size img offset (some (c ∷ buffer) ∷ rest) =
    let done = beq_ℤ (pos (offset + length (c ∷ buffer))) file_size in
    bind (write_at img offset (c ∷ buffer)) (λ copied.
      let more = receive_tcp file_size copied (offset + length (c ∷ buffer)) rest in
      if done then ok (received copied rest) else more)

-- One request: the announcement in the buffer, then the file. The answers `ok` to the client are left
-- out.
unfoldable pub tcp_request : (ℕ → Bytes) → Bytes → List Arrival → Result (Bytes × ℤ × Received)
tcp_request heap buffer arrivals = bind (parse_info buffer) (λ (file_name, file_size).
    bind (new_array heap file_size)
      (λ img. bind (receive_tcp file_size img 0 arrivals) (λ r. ok (file_name, file_size, r))))

-- The array fills up from `offset` on, whatever the parts are.
receive_tcp-parts :
    (head raw : Bytes) (b : Bytes) (parts : List Bytes) (rest : List Arrival) (size : ℕ)
    → NonEmpty (b ∷ parts)
    → length raw ≡ length (flatten (b ∷ parts))
    → size ≡ length head + length raw
    → receive_tcp (pos size) (head ++ raw) (length head) (map some (b ∷ parts) ++ rest)
      ≡ ok (received (head ++ flatten (b ∷ parts)) rest)
unfolding receive_tcp
receive_tcp-parts head raw [] parts rest size (h, hs) e k = absurd (omega (arith, h))
receive_tcp-parts head raw (c ∷ b) [] rest size h e k =
    rw
      (
        write_at-behind head raw (c ∷ b) (omega (arith, e, ap length (append-nil b))),
        drop-all (length (c ∷ b)) raw (omega (arith, ap length (append-nil b), e)),
        append-nil b,
        append-nil (head ++ c ∷ b),
      )
      (ground (arith, ap length (append-nil b)))
receive_tcp-parts head raw (c ∷ b) (d ∷ ds) rest size (h, (hd, hs)) e k =
    let sum : length raw ≡ length (c ∷ b) + (length d + length (flatten ds)) =
      omega (arith, e, length-append b (d ++ flatten ds), length-append d (flatten ds)) in
    let left = drop (length (c ∷ b)) raw in
    let ih =
      receive_tcp-parts (head ++ c ∷ b) left d ds rest size (hd, hs)
        (omega (arith, sum, length-drop (length (c ∷ b)) raw, length-append d (flatten ds)))
        (omega (arith, k, sum, length-drop (length (c ∷ b)) raw, length-append head (c ∷ b))) in
    let more =
      rw (length-append head (c ∷ b), append_assoc head (c ∷ b) (flatten (d ∷ ds))) at ih in
    rw (write_at-behind head raw (c ∷ b) (omega (arith, sum))) (ground (arith, more))

-- However the stream cuts a file that is not empty into parts, the server stores the announced
-- name and the whole file and leaves what follows unread, into a new array of the file's size, for
-- a name that is not empty, shorter than 60 bytes and without comma or NUL, and a size below 2^31.
pub tcp_request-file :
    (heap : ℕ → Bytes) (name tail file b : Bytes) (parts : List Bytes) (rest : List Arrival)
    → length (heap (length file)) ≡ length file
    → name ≢ []
    → length name < 60
    → IsPlain b',' name
    → length file < 2 ^ 31
    → NonEmpty (b ∷ parts)
    → flatten (b ∷ parts) ≡ flatten (send_tcp file)
    → tcp_request heap (info_text name (length file) ++ 0 ∷ tail) (map some (b ∷ parts) ++ rest)
      ≡ ok (name, pos (length file), received file rest)
unfolding tcp_request new_array send_tcp
tcp_request-file heap name tail file b parts rest size ne short plain small each cut =
    let all =
      (flatten-fread_blocks (suc (length file)) tcp_block file (omega arith) (omega arith)).0 in
    let same : flatten (b ∷ parts) ≡ file = cut ∙ all in
    let got =
      receive_tcp-parts [] (heap (length file)) b parts rest (length file) each
        (size ∙ ap length (sym same)) (omega (arith, size)) in
    ground (arith, parse_info-file name tail (length file) ne short plain small, got, same)
