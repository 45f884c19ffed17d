-- ===== src/MsgDistributor/Transfer.antt =====
-- `send` and `recv` on one connection.
use painting_cps.Prelude.{
  ℕ, ℤ, minus_one, pos, is_neg, int_eq, [], ◌∷◌, Option, none, some, ◌==◌, if◌then◌else◌, take, leb,
  length,
}
use painting_cps.Prelude.Assoc.{find, insert, erase}
use painting_cps.Exec.{◌>>=◌, ◌>>◌, pure, undefined, lift, deref, empty_queue, out_of_bounds}
use painting_cps.CText.{Bytes}
use painting_cps.MsgDistributor.State.{
  Host, Method, lock_map, unlock_map, sem_wait, get, modify, mf_send,
}
use painting_cps.MsgDistributor.Frames.{sock_frame}
use painting_cps.MsgDistributor.Methods.{Progress, returned, awaiting, unopened}

-- `status_map[sock]`: a missing entry reads as 0.
abbrev pub status_of : Option ℕ → ℕ
status_of none = 0
status_of (some n) = n

module _ (host : Host) where
  -- `send(sock, buffer, size)`; `buffer` is its first `size` bytes.
  unfoldable pub send : ℤ → Bytes → Method ℤ
  unfolding mf_send
  send sock buffer = do
    d ← get
    if unopened d then pure minus_one else elim (find sock d.sem_map) [
      | none ↦ pure minus_one
      | some _ ↦ do
        content ← lift (sock_frame host sock buffer)
        ret ← mf_send host d.dst_guid content
        if is_neg ret then pure minus_one else pure ret
    ]

  -- `recv(sock, buffer, size)` up to `sem_wait(recv_sem)`.
  unfoldable pub recv_request : ℤ → Method (Progress ℕ)
  recv_request sock = do
    d ← get
    if unopened d then pure (returned minus_one) else elim (find sock d.sem_map) [
      | none ↦ pure (returned minus_one)
      | some recv_sem ↦ pure (awaiting recv_sem)
    ]

  -- `recv` from `sem_wait(recv_sem)` on: the value returned and the bytes written to `buffer`. The
  -- copy takes `size` bytes, from a block that `listen` allocated with the content's length.
  unfoldable pub recv_response : ℤ → ℕ → ℕ → Method (ℤ × Bytes)
  unfolding sem_wait lock_map unlock_map
  recv_response sock size recv_sem = do
    sem_wait recv_sem
    d ← get
    if status_of (find sock d.status_map) == 0
        then (do
          lock_map
          modify λ d. record d { status_map = erase sock d.status_map }
          unlock_map
          pure (minus_one, []))
        else if d.stop
        then pure (minus_one, [])
        else do
          recv_queue ← deref (find sock d.queue_map)
          elim recv_queue [
            | [] ↦ undefined empty_queue
            | recv_char ∷ rest ↦ do
              modify λ d. record d { queue_map = insert sock rest d.queue_map }
              if leb size (length recv_char)
                  then pure (pos 1, take size recv_char)
                  else undefined out_of_bounds
          ]

  -- `recv` as a whole; `others` is what the other threads do while it waits.
  unfoldable pub recv : ℤ → ℕ → Method (Unit {0}) → Method (ℤ × Bytes)
  unfolding recv_request recv_response
  recv sock size others = do
    progress ← recv_request sock
    elim progress [
      | returned r ↦ pure (r, [])
      | awaiting recv_sem ↦ do others; recv_response sock size recv_sem
    ]
