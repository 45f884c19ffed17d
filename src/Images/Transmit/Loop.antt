-- ===== src/Images/Transmit/Loop.antt =====
-- The receive loop of `server_transmit` on the blocks that the client sends.
use painting_cps.Prelude.{
  ℕ, zero, suc, ◌+◌, ◌≤◌, ◌<◌, ◌≡◌, refl, ◌∙◌, ap, ℤ, pos, beq_ℤ, ◌==◌, if◌then◌else◌, false, true,
  List, [], ◌∷◌, ◌++◌, arith, length, length-append, length-take, length-drop, take, take-all, drop,
  drop-all, append_assoc, append-nil,
}
use painting_cps.Exec.{ok, Exec, done, pure}
use painting_cps.CText.{Bytes, write_at}
use painting_cps.CText.Copies.{write_at-behind}
use painting_cps.Calls.{Call, read_from, Reply, net, brings, Net}
use painting_cps.Images.Blocks.{fread_blocks, flatten, flatten-fread_blocks}
use painting_cps.Images.Tcp.{tcp_block, send_tcp}
use painting_cps.Images.Transmit.{recv_rounds, recv_part}

-- What `recv` gives for blocks, and the calls for them.
abbrev pub part_replies : List Bytes → List Reply → List Reply
part_replies [] rest = rest
part_replies (b ∷ bs) rest = brings (length b) b ∷ part_replies bs rest

abbrev pub part_calls : ℤ → List Bytes → List Call → List Call
part_calls sock [] rest = rest
part_calls sock (b ∷ bs) rest = read_from sock tcp_block ∷ part_calls sock bs rest

-- Blocks that are not empty and fit the buffer.
abbrev pub AllFit : List Bytes → Type 0
AllFit [] = Unit {0}
AllFit (b ∷ bs) = (1 ≤ length b) × (length b ≤ tcp_block) × AllFit bs

fread_blocks-cut :
    (k : ℕ) (c : ℕ) (s : Bytes)
    → (1 ≤ length (take (suc k) (c ∷ s))) × (length (take (suc k) (c ∷ s)) ≤ suc k)
fread_blocks-cut k c s = let cut = length-take (suc k) (c ∷ s) in (omega arith, omega (arith, cut))

fread_blocks-AllFit : (f : ℕ) (file : Bytes) → AllFit (fread_blocks f tcp_block file)
unfolding fread_blocks
fread_blocks-AllFit zero file = tt
fread_blocks-AllFit (suc f) [] = tt
fread_blocks-AllFit (suc f) (c ∷ s) =
    let (low, high) = fread_blocks-cut 1023 c s in
    let more : (length (c ∷ s) == 0) ≡ false = ground arith in
    rw more (low, high, fread_blocks-AllFit f (drop tcp_block (c ∷ s)))

-- The client's own blocks fit and make up the file.
pub send_tcp-AllFit : (file : Bytes) → (flatten (send_tcp file) ≡ file) × AllFit (send_tcp file)
unfolding send_tcp
send_tcp-AllFit file = (
  (flatten-fread_blocks (suc (length file)) tcp_block file (omega arith) (omega arith)).0,
  fread_blocks-AllFit (suc (length file)) file,
)

recv_part-written :
    (again : Bytes → ℕ → Exec Net Bytes) (size : ℤ) (img part copied : Bytes) (offset : ℕ) (s : Net)
    → write_at img offset part ≡ ok copied
    → recv_part again size img offset part s
      ≡ (if beq_ℤ (pos (offset + length part)) size
            then pure copied
            else again copied (offset + length part))
          s
unfolding recv_part
recv_part-written again size img part copied offset s written = rw written refl

module _ (sock : ℤ) (f : ℕ) (size : ℤ) (img : Bytes) (offset : ℕ) (rest : List Reply)
    (trace : List Call) where
  recv_rounds-step :
      (c : ℕ) (b : Bytes)
      → recv_rounds sock
          (suc f)
          size
          img
          offset
          (net (brings (length (c ∷ b)) (c ∷ b) ∷ rest) trace)
        ≡ recv_part
            (recv_rounds sock f size)
            size
            img
            offset
            (take tcp_block (c ∷ b))
            (net rest (trace ++ read_from sock tcp_block ∷ []))
  unfolding recv_rounds
  recv_rounds-step c b = refl

  -- One round that gets a part.
  recv_rounds-part :
      (c : ℕ) (b copied : Bytes)
      → length (c ∷ b) ≤ tcp_block
      → write_at img offset (c ∷ b) ≡ ok copied
      → recv_rounds sock
          (suc f)
          size
          img
          offset
          (net (brings (length (c ∷ b)) (c ∷ b) ∷ rest) trace)
        ≡ (if beq_ℤ (pos (offset + length (c ∷ b))) size
              then pure copied
              else recv_rounds sock f size copied (offset + length (c ∷ b)))
            (net rest (trace ++ read_from sock tcp_block ∷ []))
  recv_rounds-part c b copied fit written =
      recv_rounds-step c b
      ∙ ap
          (λ (p : Bytes).
            recv_part (recv_rounds sock f size) size img offset p
              (net rest (trace ++ read_from sock tcp_block ∷ [])))
          (take-all tcp_block (c ∷ b) fit)
      ∙ recv_part-written (recv_rounds sock f size) size img (c ∷ b) copied offset _ written

beq_ℤ-lt : (m n : ℕ) → m < n → beq_ℤ (pos m) (pos n) ≡ false
beq_ℤ-lt m n h = ground (arith, h)

beq_ℤ-refl : (n : ℕ) → beq_ℤ (pos n) (pos n) ≡ true
beq_ℤ-refl n = ground arith

pub recv_rounds-parts :
    (sock : ℤ) (f : ℕ) (head raw b : Bytes) (parts : List Bytes) (rest : List Reply)
    (trace : List Call) (size : ℕ)
    → AllFit (b ∷ parts)
    → length raw ≡ length (flatten (b ∷ parts))
    → size ≡ length head + length raw
    → length parts < f
    → recv_rounds sock f
        (pos size)
        (head ++ raw)
        (length head)
        (net (part_replies (b ∷ parts) rest) trace)
      ≡ done (head ++ flatten (b ∷ parts)) (net rest (trace ++ part_calls sock (b ∷ parts) []))
recv_rounds-parts sock zero head raw b parts rest trace size h e k fuel =
    absurd (omega (arith, fuel))
recv_rounds-parts sock (suc f) head raw [] parts rest trace size (h, fit, hs) e k fuel =
    absurd (omega (arith, h))
recv_rounds-parts sock (suc f) head raw (c ∷ b) [] rest trace size (h, fit, hs) e k fuel =
    let whole = ap length (append-nil b) in
    let full : length head + length (c ∷ b) ≡ size = omega (arith, e, k, whole) in
    let last = beq_ℤ-refl size in
    rw
      (
        recv_rounds-part sock f (pos size) (head ++ raw) (length head) rest trace c b _ fit
            (write_at-behind head raw (c ∷ b) (omega (arith, e, whole))),
        full,
        last,
        drop-all (length (c ∷ b)) raw (omega (arith, whole, e)),
        append_assoc head (c ∷ b) [],
      )
      refl
recv_rounds-parts sock (suc f) head raw (c ∷ b) (d ∷ ds) rest trace size (h, fit, (hd, fd, hs)) e k
      fuel =
    let sum : length raw ≡ length (c ∷ b) + (length d + length (flatten ds)) =
      omega (arith, e, length-append b (d ++ flatten ds), length-append d (flatten ds)) in
    let left = drop (length (c ∷ b)) raw in
    let written = write_at-behind head raw (c ∷ b) (omega (arith, sum)) in
    let less = beq_ℤ-lt (length head + length (c ∷ b)) size (omega (arith, k, sum, hd)) in
    let ih =
      recv_rounds-parts sock f (head ++ c ∷ b) left d ds rest
        (trace ++ read_from sock tcp_block ∷ []) size (hd, fd, hs)
        (omega (arith, sum, length-drop (length (c ∷ b)) raw, length-append d (flatten ds)))
        (omega (arith, k, sum, length-drop (length (c ∷ b)) raw, length-append head (c ∷ b)))
        (omega (arith, fuel)) in
    let more =
      rw
        (
          length-append head (c ∷ b),
          append_assoc head (c ∷ b) (flatten (d ∷ ds)),
          append_assoc trace (read_from sock tcp_block ∷ []) (part_calls sock (d ∷ ds) []),
        )
        at ih in
    rw
      (
        recv_rounds-part sock f (pos size) (head ++ raw) (length head) (part_replies (d ∷ ds) rest)
            trace c b _ fit written,
        less,
      )
      more
