-- ===== src/Images/Orbit.antt =====
-- A picture over MsgDistributor: whole blocks of 4096 bytes, the last one filled up with zeros.
use native.Mathlib.Decide.{dec_le}
use painting_cps.Prelude.{
  ℕ, zero, suc, ◌+◌, ◌-◌, ◌^◌, ◌≤◌, ◌<◌, ◌≡◌, ◌≢◌, refl, sym, ◌∙◌, ap, ℤ, pos, negsuc, List, [],
  ◌∷◌, ◌++◌, Bool, true, false, leb, if◌then◌else◌, length, take, drop, replicate, map, arith,
  length-append, length-take, length-drop, append_assoc, append-nil, take-append_exact, take-all,
  drop-all,
}
use painting_cps.Exec.{Result, ok, fault, bind, null_pointer}
use painting_cps.CText.{Bytes, write_at}
use painting_cps.CText.Tokens.{IsPlain}
use painting_cps.CText.Copies.{write_at-behind, le→leb, lt→leb}
use painting_cps.Images.Info.{parse_info, info_text, new_array, parse_info-file}
use painting_cps.Images.Blocks.{fread_blocks, take-drop_append}

-- `BUFFER_SIZE * 4`, the client's `send_size` and the server's `recv_length`.
abbrev pub recv_length : ℕ
recv_length = 4096

-- `bufferSend` for what `fread` gave, zeroed before.
abbrev pub fill : Bytes → Bytes
fill block = block ++ replicate (recv_length - length block) 0

-- The client's calls of `MsgD.send` for a file, while none of them fails.
unfoldable pub send_orbit : Bytes → List Bytes
send_orbit file = map fill (fread_blocks (suc (length file)) recv_length file)

-- What one `MsgD.recv` gives: whether its value is positive, and the buffer afterwards.
pub record Block : Type 0 where
  pub good : Bool
  pub buffer : Bytes

-- The loop leaves with the array and the number of blocks left, or waits for the next block.
pub data Collected : Type 0 where
  collected : Bytes → List Block → Collected
  waiting : Bytes → ℕ → Collected

-- The receive loop. `known` tells that `sem_match` was found for an earlier picture: when `recv`
-- fails it is posted, a null pointer at first, and the loop goes on with the zeroed buffer; that post
-- is not counted here.
unfoldable pub receive_orbit : Bool → ℕ → Bytes → ℕ → ℕ → List Block → Result Collected
receive_orbit known file_size img offset received_size [] = ok (waiting img received_size)
receive_orbit known file_size img offset received_size (b ∷ rest) =
    let copy = λ (n : ℕ). write_at img offset (take n b.buffer) in
    let last = bind (copy (file_size - received_size)) (λ copied. ok (collected copied rest)) in
    let next = bind (copy recv_length) (λ copied.
      receive_orbit known file_size copied (offset + recv_length) (received_size + recv_length)
        rest) in
    let read = if leb (file_size - received_size) recv_length then last else next in
    if b.good then read else if known then read else fault null_pointer

-- The array for the file, a negative size throwing, and the loop.
unfoldable pub receive_file : Bool → (ℕ → Bytes) → ℤ → List Block → Result Collected
receive_file known heap (pos n) blocks =
    bind (new_array heap (pos n)) (λ img. receive_orbit known n img 0 0 blocks)
receive_file known heap (negsuc n) blocks =
    bind (new_array heap (negsuc n)) (λ img. ok (waiting img 0))

-- One request: the announcement in the buffer, then the file. The answer `ok` to the client is left
-- out.
unfoldable pub orbit_request :
    Bool → (ℕ → Bytes) → Bytes → List Block → Result (Bytes × ℤ × Collected)
orbit_request known heap buffer blocks = bind (parse_info buffer) (λ (file_name, file_size).
    bind (receive_file known heap file_size blocks) (λ r. ok (file_name, file_size, r)))

-- A block that arrives whole.
abbrev pub arrive : Bytes → Block
arrive b = record { good = true; buffer = b }

fread_blocks-nil : (f n : ℕ) → fread_blocks f n [] ≡ []
unfolding fread_blocks
fread_blocks-nil zero n = refl
fread_blocks-nil (suc f) n = refl

fread_blocks-cons :
    (f n : ℕ) (file : Bytes)
    → 1 ≤ length file
    → fread_blocks (suc f) n file ≡ take n file ∷ fread_blocks f n (drop n file)
unfolding fread_blocks
fread_blocks-cons f n [] h = absurd (omega (arith, h))
fread_blocks-cons f n (c ∷ s) h = ground arith

-- A block that is not the last one is copied whole.
receive_orbit-full :
    (known : Bool) (head raw b : Bytes) (rest : List Block) (size : ℕ)
    → length b ≡ recv_length
    → length head + recv_length < size
    → recv_length ≤ length raw
    → receive_orbit known size (head ++ raw) (length head) (length head) (arrive (fill b) ∷ rest)
      ≡ receive_orbit known size
          ((head ++ b) ++ drop recv_length raw)
          (length (head ++ b))
          (length (head ++ b))
          rest
unfolding receive_orbit
receive_orbit-full known head raw b rest size full more room =
    let cut : take recv_length (fill b) ≡ b =
      take-append_exact b (replicate (recv_length - length b) 0) recv_length (sym full) in
    let put = write_at-behind head raw b (omega (arith, full, room)) in
    let moved : length (head ++ b) ≡ length head + recv_length =
      omega (arith, full, length-append head b) in
    let far : leb (size - length head) recv_length ≡ false = lt→leb _ _ (omega (arith, more)) in
    rw moved (rw far (rw cut (rw put (rw full refl))))

-- The last block, cut off at the file's end.
receive_orbit-last :
    (known : Bool) (head raw b : Bytes) (rest : List Block) (size : ℕ)
    → length b ≤ recv_length
    → size ≡ length head + length b
    → length raw ≡ length b
    → receive_orbit known size (head ++ raw) (length head) (length head) (arrive (fill b) ∷ rest)
      ≡ ok (collected (head ++ b) rest)
unfolding receive_orbit
receive_orbit-last known head raw b rest size short sized room =
    let left : size - length head ≡ length b = omega (arith, sized) in
    let cut : take (length b) (fill b) ≡ b =
      take-append_exact b (replicate (recv_length - length b) 0) (length b) refl in
    let put = write_at-behind head raw b (omega (arith, room)) in
    let none_left = drop-all (length b) raw (omega (arith, room)) in
    rw left (
      rw (le→leb (length b) recv_length short)
        (rw cut (rw put (rw (none_left, append-nil (head ++ b)) refl))))

-- The array fills up block by block.
receive_orbit-blocks :
    (f : ℕ) (known : Bool) (head raw file : Bytes) (rest : List Block) (size : ℕ)
    → 1 ≤ length file
    → length file < f
    → length raw ≡ length file
    → size ≡ length head + length file
    → receive_orbit known size
        (head ++ raw)
        (length head)
        (length head)
        (map arrive (map fill (fread_blocks f recv_length file)) ++ rest)
      ≡ ok (collected (head ++ file) rest)
receive_orbit-blocks zero known head raw file rest size ne fuel e k = absurd (omega (arith, fuel))
receive_orbit-blocks (suc f) known head raw file rest size ne fuel e k =
    let b = take recv_length file in
    let left = drop recv_length file in
    let split = take-drop_append recv_length file in
    rw (fread_blocks-cons f recv_length file ne) (elim (dec_le (length file) recv_length) [
      | yes small ↦
          let whole = take-all recv_length file small in
          let done = drop-all recv_length file small in
          rw (whole, done, fread_blocks-nil f recv_length)
            (receive_orbit-last known head raw file rest size small k e)
      | no large ↦
          let full : length b ≡ recv_length = omega (arith, large, length-take recv_length file) in
          let ih =
            receive_orbit-blocks f known (head ++ b) (drop recv_length raw) left rest size
              (omega (arith, large, length-drop recv_length file))
              (omega (arith, fuel, large, length-drop recv_length file))
              (omega (arith, e, length-drop recv_length file, length-drop recv_length raw))
              (omega (arith, k, large, full, length-append head b, length-drop recv_length file)) in
          receive_orbit-full known head raw b
            (map arrive (map fill (fread_blocks f recv_length left)) ++ rest) size full
            (omega (arith, k, large)) (omega (arith, e, large))
          ∙ ih
          ∙ ap (λ (t : Bytes). ok (collected t rest))
              (append_assoc head b left ∙ ap (λ (t : Bytes). head ++ t) split)
    ])

-- The server stores the announced name and the whole of a file that is not empty when the client's
-- blocks arrive in order, and reads no block behind them, into a new array of the file's size, for
-- a name that is not empty, shorter than 60 bytes and without comma or NUL, and a size below 2^31.
pub orbit_request-file :
    (known : Bool) (heap : ℕ → Bytes) (name tail file : Bytes) (rest : List Block)
    → length (heap (length file)) ≡ length file
    → name ≢ []
    → length name < 60
    → IsPlain b',' name
    → 1 ≤ length file
    → length file < 2 ^ 31
    → orbit_request known heap
        (info_text name (length file) ++ 0 ∷ tail)
        (map arrive (send_orbit file) ++ rest)
      ≡ ok (name, pos (length file), collected file rest)
unfolding orbit_request receive_file new_array send_orbit
orbit_request-file known heap name tail file rest sized ne short plain filled small =
    let got =
      receive_orbit-blocks (suc (length file)) known [] (heap (length file)) file rest (length file)
        filled (omega arith) sized (omega arith) in
    ground (arith, parse_info-file name tail (length file) ne short plain small, got)

-- For an empty file over MsgDistributor the client sends no block, and the server waits for one,
-- for a name that is not empty, shorter than 60 bytes and without comma or NUL.
pub orbit_request-empty :
    (known : Bool) (heap : ℕ → Bytes) (name tail : Bytes)
    → name ≢ []
    → length name < 60
    → IsPlain b',' name
    → orbit_request known heap (info_text name 0 ++ 0 ∷ tail) (map arrive (send_orbit []))
      ≡ ok (name, pos 0, waiting (heap 0) 0)
unfolding orbit_request receive_file new_array send_orbit fread_blocks receive_orbit
orbit_request-empty known heap name tail ne short plain =
    ground (arith, parse_info-file name tail 0 ne short plain (omega arith))
