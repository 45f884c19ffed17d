-- ===== src/Images/Transmit.antt =====
-- `server_transmit` of server/server-OpenCV.cpp over a socket as a whole: its rounds on the answers of
-- the system. The semaphore of the user is there when it is looked for; its waiting is in Sessions.
pub mod Loop
pub mod Copies
pub mod Rounds
pub mod Session
use painting_cps.Prelude.{
  ℕ, zero, suc, ◌+◌, ℤ, pos, is_neg, is_pos, beq_ℤ, Bool, true, false, List, [], ◌∷◌, ◌++◌, Option,
  none, some, if◌then◌else◌, length, take,
}
use painting_cps.Exec.{
  Outcome, Exec, done, exits, waits, faults, ◌>>=◌, ◌>>◌, pure, undefined, lift, null_pointer,
  out_of_fuel,
}
use painting_cps.CText.{Bytes, codes, write_at}
use painting_cps.Calls.{close_fd, write_to, read_from, Net, call, value, stopped, buffer_of}
use painting_cps.Images.Info.{parse_info, new_array}
use painting_cps.Images.Tcp.{tcp_block}
use painting_cps.Metrics.{Metrics, submit_request}
use painting_cps.Storm.Spout.{Kept, kept, leaves, returns_early, keep_picture}

-- `posts` counts the posts of `sem_match`, whose pointer the thread has if `known`.
pub record Transmit : Type 0 where
  pub net : Net
  pub metrics : Metrics
  pub img_queue : List Bytes
  pub known : Bool
  pub posts : ℕ

abbrev pub within : {A : Type 0} → Transmit → Outcome Net A → Outcome Transmit A
within s (done a n) = done a (record s { net = n })
within s (exits c n) = exits c (record s { net = n })
within s (waits n) = waits (record s { net = n })
within s (faults e) = faults e

abbrev pub on_net : {A : Type 0} → Exec Net A → Exec Transmit A
on_net m s = within s (m s.net)

-- `response`.
abbrev pub ok_text : Bytes
ok_text = codes "ok" ++ 0 ∷ []

-- What the receive loop does with the bytes that it got. The test for the last part comes before the
-- copy, as a flag.
unfoldable pub recv_part : (Bytes → ℕ → Exec Net Bytes) → ℤ → Bytes → ℕ → Bytes → Exec Net Bytes
recv_part again file_size img offset part = do
  copied ← lift (write_at img offset part)
  if beq_ℤ (pos (offset + length part)) file_size
      then pure copied
      else again copied (offset + length part)

module _ (sock : ℤ) where
  -- The receive loop, with fuel. An error and the end of the stream both leave it.
  unfoldable pub recv_rounds : ℕ → ℤ → Bytes → ℕ → Exec Net Bytes
  unfolding recv_part
  recv_rounds zero file_size img offset = undefined out_of_fuel
  recv_rounds (suc fuel) file_size img offset = do
    reply ← call (read_from sock tcp_block)
    if is_pos reply.ret
        then (do
          let again = recv_rounds fuel file_size
          recv_part again file_size img offset (take tcp_block reply.bytes))
        else pure img

  abbrev pub recv_loop : ℤ → Bytes → Exec Net Bytes
  recv_loop file_size img s = recv_rounds (suc (length s.replies)) file_size img 0 s

  -- The client is gone: the result thread is woken through a pointer that is null before the first
  -- picture, the socket is closed, and the thread ends.
  unfoldable pub leave : Exec Transmit (Option (Bytes × Bytes × ℤ))
  leave s =
      if s.known
      then (do on_net (value (close_fd sock)); pure none) (record s { posts = s.posts + 1 })
      else faults null_pointer

  -- The picture behind an announcement: its name, its array and its size.
  unfoldable pub receive_picture :
      (ℕ → Bytes) → Bytes → ℤ → Exec Transmit (Option (Bytes × Bytes × ℤ))
  unfolding recv_rounds new_array
  receive_picture heap file_name file_size = do
    img ← lift (new_array heap file_size)
    filled ← on_net (recv_loop file_size img)
    on_net (value (write_to sock ok_text))
    pure (some (file_name, filled, file_size))

  -- The announcement, the answer and the picture, if the thread goes on.
  unfoldable pub receive_request : (ℕ → Bytes) → Exec Transmit (Option (Bytes × Bytes × ℤ))
  unfolding leave receive_picture parse_info
  receive_request heap = do
    reply ← on_net (call (read_from sock tcp_block))
    if is_pos reply.ret
        then (do
          (file_name, file_size) ← lift (parse_info (buffer_of tcp_block reply.bytes))
          n ← on_net (value (write_to sock ok_text))
          if is_pos n then receive_picture heap file_name file_size else leave)
        else leave

-- The picture is counted and kept, its name queued, and the result thread woken.
abbrev pub queue_name : Bytes → Kept → Transmit → Outcome Transmit Kept
queue_name file_name kept s =
    done kept
      (record s { img_queue = s.img_queue ++ file_name ∷ []; known = true; posts = s.posts + 1 })
queue_name file_name leaves s = done leaves s
queue_name file_name returns_early s = done returns_early s

module _ (storm kafka run : Bool) (spout_ip : Bytes) where
  unfoldable pub finish_round : Bytes → Bytes → ℤ → Exec Transmit Kept
  unfolding submit_request keep_picture
  finish_round file_name img file_size s =
      (do
        metrics ← lift (submit_request s.metrics)
        outcome ← (λ t.
            on_net (keep_picture storm kafka run spout_ip file_name img file_size)
              (record t { metrics = metrics }))
        queue_name file_name outcome)
        s

  -- Behind the loop.
  abbrev pub end_transmit : ℤ → Exec Transmit (Unit {0})
  end_transmit sock = do on_net (value (close_fd sock)); λ s. done tt (record s { img_queue = [] })

  -- `while (!global_stop)`, with fuel for as many rounds as there are answers, and one.
  unfoldable pub transmit_rounds : (ℕ → Bytes) → ℤ → ℕ → Exec Transmit (Unit {0})
  unfolding receive_request finish_round
  transmit_rounds heap sock zero = undefined out_of_fuel
  transmit_rounds heap sock (suc fuel) =
      let again = transmit_rounds heap sock fuel in
      do
        stop ← on_net stopped
        if stop then end_transmit sock else do
          request ← receive_request sock heap
          elim request [
            | none ↦ pure tt
            | some (file_name, img, file_size) ↦ do
              outcome ← finish_round file_name img file_size
              elim outcome [ kept ↦ again | leaves ↦ end_transmit sock | returns_early ↦ pure tt ]
          ]

  unfoldable pub server_transmit : (ℕ → Bytes) → ℤ → Exec Transmit (Unit {0})
  unfolding transmit_rounds
  server_transmit heap sock = do
    n ← on_net (value (write_to sock ok_text))
    if is_neg n then (do on_net (value (close_fd sock)); pure tt) else λ s.
        transmit_rounds heap sock (suc (length s.net.replies)) s
