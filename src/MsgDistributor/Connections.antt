-- ===== src/MsgDistributor/Connections.antt =====
-- `connect` on the side that opens a connection and `accept` on the other.
use painting_cps.Prelude.{
  ℕ, zero, suc, ℤ, pos, negsuc, minus_one, is_neg, ◌==◌, int_eq, int_max, List, [], ◌∷◌, none, some,
  if◌then◌else◌, length,
}
use painting_cps.Prelude.Assoc.{find}
use painting_cps.Exec.{
  Result, ok, fault, ◌>>=◌, ◌>>◌, pure, exit, undefined, lift, empty_queue, int_overflow,
  out_of_fuel,
}
use painting_cps.MsgDistributor.State.{
  Host, Method, lock_send, unlock_send, lock_id, unlock_id, wait_connect_sem, wait_accept_sem, get,
  modify, mf_send,
}
use painting_cps.MsgDistributor.Frames.{create_text, accepted_text, command_frame}
use painting_cps.MsgDistributor.Methods.{Progress, returned, awaiting, unopened, register}

-- `++` on an `int`.
unfoldable pub increment : ℤ → Result ℤ
increment (pos n) = if n == int_max then fault int_overflow else ok (pos (suc n))
increment (negsuc zero) = ok (pos 0)
increment (negsuc (suc n)) = ok (negsuc n)

-- `++mfsockid; while (sem_map.find(mfsockid) != sem_map.end()) ++mfsockid;`
unfoldable pub next_id : ℕ → List (ℤ × ℕ) → ℤ → Result ℤ
unfolding increment
next_id zero sem_map id = fault out_of_fuel
next_id (suc fuel) sem_map id = elim (increment id) [
  | fault e ↦ fault e
  | ok i ↦ elim (find i sem_map) [ none ↦ ok i | some _ ↦ next_id fuel sem_map i ]
]

module _ (host : Host) where
  -- `connect()` up to `sem_wait(&connect_sem)`; `id_lock` stays held across the wait.
  unfoldable pub connect_request : Method (Progress (Unit {0}))
  unfolding lock_id unlock_id lock_send unlock_send mf_send
  connect_request = do
    d ← get
    if unopened d then pure (returned minus_one) else do
      header ← lift (command_frame host create_text)
      lock_id
      lock_send
      ret ← mf_send host d.dst_guid header
      if is_neg ret
          then (do unlock_send; unlock_id; pure (returned minus_one))
          else (do unlock_send; pure (awaiting tt))

  -- `connect()` from `sem_wait(&connect_sem)` on.
  unfoldable pub connect_response : Method ℤ
  unfolding wait_connect_sem register unlock_id
  connect_response = do
    wait_connect_sem
    d ← get
    if d.stop then pure minus_one else elim d.connect_queue [
      | [] ↦ undefined empty_queue
      | new_id ∷ rest ↦ do
        modify λ d. record d { connect_queue = rest }
        register new_id
        unlock_id
        pure new_id
    ]

  -- `connect()` as a whole; `others` is what the other threads do while it waits.
  unfoldable pub connect : Method (Unit {0}) → Method ℤ
  unfolding connect_request connect_response
  connect others = do
    progress ← connect_request
    elim progress [ returned r ↦ pure r | awaiting _ ↦ do others; connect_response ]

  -- `accept()` up to `sem_wait(&accept_sem)`.
  unfoldable pub accept_request : Method (Progress (Unit {0}))
  accept_request = do d ← get; if unopened d then pure (returned minus_one) else pure (awaiting tt)

  -- `accept()` from `sem_wait(&accept_sem)` on. One round more than there are connections is
  -- enough to find an id.
  unfoldable pub accept_response : Method ℤ
  unfolding wait_accept_sem lock_id unlock_id lock_send unlock_send mf_send register
  accept_response = do
    wait_accept_sem
    d ← get
    if d.stop then pure minus_one else do
      lock_id
      new_id ← lift (next_id (suc (length d.sem_map)) d.sem_map d.mfsockid)
      modify λ d. record d { mfsockid = new_id }
      header ← lift (command_frame host (accepted_text new_id))
      lock_send
      ret ← mf_send host d.dst_guid header
      if is_neg ret
          then (do unlock_send; unlock_id; exit (pos 1))
          else (do unlock_send; register new_id; unlock_id; pure new_id)

  -- `accept()` as a whole; `others` is what the other threads do while it waits.
  unfoldable pub accept : Method (Unit {0}) → Method ℤ
  unfolding accept_request accept_response
  accept others = do
    progress ← accept_request
    elim progress [ returned r ↦ pure r | awaiting _ ↦ do others; accept_response ]
