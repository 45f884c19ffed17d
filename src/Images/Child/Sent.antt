-- ===== src/Images/Child/Sent.antt =====
-- What `transmit_child` sends over a socket for one copy of a file.
use painting_cps.Prelude.{
  ℕ, ◌+◌, ◌-◌, ◌^◌, ◌==◌, ◌<◌, ◌≡◌, refl, ◌∙◌, ap, ℤ, pos, List, [], ◌∷◌, ◌++◌, map, arith, false,
  length, length-append, length-replicate, append_assoc, append-nil, replicate,
}
use painting_cps.Exec.{ok, done}
use painting_cps.CText.{Bytes, print_nat}
use painting_cps.CText.Copies.{sprintf-fits, drop-replicate}
use painting_cps.MsgDistributor.Frames.Laws.{length-print_nat-le}
use painting_cps.Calls.{
  Call, stat_file, open_file, write_to, read_from, Reply, net, returns, brings,
}
use painting_cps.Images.Info.{file_info, info_text}
use painting_cps.Images.Tcp.{tcp_block, send_tcp}
use painting_cps.Images.Child.{response_length, announced_name, send_blocks, send_copy, tcp_copy}

-- Calls that bring all their bytes on their way.
abbrev pub oks : List Bytes → List Reply
oks [] = []
oks (b ∷ blocks) = returns (length b) ∷ oks blocks

-- The announcement in its array.
abbrev pub info_block : Bytes → ℕ → Bytes
info_block name size =
    info_text name size ++ 0 ∷ replicate (tcp_block - length (info_text name size) - 1) 0

file_info-block :
    (name : Bytes) (size : ℕ)
    → length name < 60
    → size < 2 ^ 31
    → file_info (replicate tcp_block 0) name size ≡ ok (info_block name size)
unfolding file_info info_text
file_info-block name size short small =
    let text = info_text name size in
    let room : length text < tcp_block =
      omega (
        arith,
        short,
        length-append name (b',' ∷ print_nat size),
        length-print_nat-le size small,
      ) in
    sprintf-fits (replicate tcp_block 0) text
      (omega (arith, room, length-replicate {A = ℕ} tcp_block 0))
    ∙ ap (λ (t : Bytes). ok (text ++ 0 ∷ t))
        (drop-replicate (length text + 1) tcp_block (tcp_block - length text - 1) 0
          (omega (arith, room)))

-- The answers and the calls of one copy, for a socket, a file's name, the announced one and its
-- content.
abbrev pub copy_replies : ℕ → Bytes → List Reply → List Reply
copy_replies fp file rest =
    returns (length file)
    ∷ returns tcp_block
    ∷ returns 3
    ∷ brings fp file
    ∷ (oks (send_tcp file) ++ returns 3 ∷ rest)

abbrev pub copy_calls : ℕ → Bytes → Bytes → Bytes → List Call
copy_calls sockfd file_name name file =
    stat_file file_name
    ∷ write_to (pos sockfd) (info_block name (length file))
    ∷ read_from (pos sockfd) response_length
    ∷ open_file file_name
    ∷ (map (write_to (pos sockfd)) (send_tcp file) ++ read_from (pos sockfd) response_length ∷ [])

module _ (stack : ℕ → Bytes) (size_per_time : ℤ) (file_name : Bytes) (sockfd fp : ℕ) where
  send_blocks-all :
      (blocks : List Bytes) (rest : List Reply) (trace : List Call)
      → send_blocks stack size_per_time file_name
          (pos sockfd)
          blocks
          (net (oks blocks ++ rest) trace)
        ≡ done tt (net rest (trace ++ map (write_to (pos sockfd)) blocks))
  unfolding send_blocks
  send_blocks-all [] rest trace = rw (append-nil trace) refl
  send_blocks-all (b ∷ blocks) rest trace =
      send_blocks-all blocks rest (trace ++ write_to (pos sockfd) b ∷ [])
      ∙ ap (λ (t : List Call). done tt (net rest t))
          (append_assoc trace (write_to (pos sockfd) b ∷ []) (map (write_to (pos sockfd)) blocks))

  pub tcp_copy-all :
      (name file : Bytes) (fake_id next : ℕ) (rest : List Reply) (trace : List Call)
      → announced_name size_per_time file_name stack fake_id ≡ ok (name, next)
      → length name < 60
      → length file < 2 ^ 31
      → 0 < fp
      → tcp_copy stack size_per_time file_name
          (pos sockfd)
          fake_id
          (net (copy_replies fp file rest) trace)
        ≡ done next (net rest (trace ++ copy_calls sockfd file_name name file))
  unfolding tcp_copy send_copy
  tcp_copy-all name file fake_id next rest trace named short small there =
      let opened : (fp == 0) ≡ false = ground (arith, there) in
      let start =
        (((trace ++ stat_file file_name ∷ [])
            ++ write_to (pos sockfd) (info_block name (length file)) ∷ [])
          ++ read_from (pos sockfd) response_length ∷ [])
        ++ open_file file_name ∷ [] in
      rw
        (
          named,
          file_info-block name (length file) short small,
          opened,
          send_blocks-all (send_tcp file) (returns 3 ∷ rest) start,
        )
        (ap (λ (t : List Call). done next (net rest t)) (simp append_assoc))
