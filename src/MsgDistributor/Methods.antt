-- ===== src/MsgDistributor/Methods.antt =====
-- The methods. One that waits inside is two actions, before and after the wait.
use painting_cps.Prelude.{
  ℕ, ◌+◌, ℤ, pos, minus_one, beq_ℤ, is_neg, int_eq, Bool, true, false, not, [], ◌∷◌, ◌++◌, Option,
  none, some, beq_bytes, if◌then◌else◌, length,
}
use painting_cps.Prelude.Assoc.{find, insert, erase}
use painting_cps.Exec.{◌>>=◌, ◌>>◌, pure, exit, lift, deref}
use painting_cps.CText.{Bytes, Token, codes, overlay, strtok, strtok_next, text_of, to_int}
use painting_cps.MsgDistributor.State.{
  Host, MsgDistributor, Method, max_chunk, lock_map, unlock_map, new_sem, sem_post, get, modify,
  mf_send,
}
use painting_cps.MsgDistributor.Frames.{id_length, close_text, command_frame, frame_content}

-- How far a method gets before it waits: it returns a value, or it waits with what it holds.
pub data Progress {ℓ} (W : Type ℓ) : Type ℓ where
  returned : ℤ → Progress W
  awaiting : W → Progress W

-- `init(src_GUID, dst_GUID, debug)`, for the value of `mfopen`, and whether the four calls of
-- `pthread_mutex_init` and the two of `sem_init` succeed (where the latter fail is only reported).
unfoldable pub init : ℤ → Bool → Bool → ℤ → ℤ → Method ℤ
init mfopen mutexes_ok sems_ok src_guid dst_guid = do
  d ← get
  if not (beq_ℤ d.mfsockid minus_one) then pure minus_one else do
    modify λ d. record d { mfsockid = pos 0; src_guid = src_guid; dst_guid = dst_guid }
    if not (beq_ℤ mfopen (pos 0))
        then exit (pos 1)
        else if not mutexes_ok
        then pure minus_one
        else do
          modify λ d. record d { id_lock = false; map_lock = false; send_lock = false }
          modify λ d. if sems_ok then record d { connect_sem = 0; accept_sem = 0 } else d
          pure (pos 0)

-- Every method but `init` is refused before it.
abbrev pub unopened : MsgDistributor → Bool
unopened d = beq_ℤ d.mfsockid minus_one

-- A new connection: its semaphore, its queue and its status, put into the three maps.
unfoldable pub register : ℤ → Method (Unit {0})
unfolding new_sem lock_map unlock_map
register id = do
  p ← new_sem
  lock_map
  modify λ d. record d {
    queue_map = insert id [] d.queue_map;
    sem_map = insert id p d.sem_map;
    status_map = insert id 1 d.status_map;
  }
  unlock_map

module _ (host : Host) where
  -- `close(sock, passive)`
  unfoldable pub close : ℤ → Bool → Method ℤ
  unfolding lock_map unlock_map sem_post mf_send
  close sock passive = do
    d ← get
    if unopened d then exit (pos 1) else elim (find sock d.sem_map) [
      | none ↦ pure minus_one
      | some close_sem ↦ do
        lock_map
        modify λ d. record d { status_map = insert sock 0 d.status_map }
        sem_post close_sem
        modify λ d. record d { sem_map = erase sock d.sem_map; queue_map = erase sock d.queue_map }
        unlock_map
        if passive then pure (pos 0) else do
          content ← lift (command_frame host (close_text sock))
          ret ← mf_send host d.dst_guid content
          if is_neg ret then pure minus_one else pure (pos 0)
    ]

  -- The branches of `listen` behind the message's first word. `t` is that word, `ret` the number of
  -- bytes received.
  unfoldable pub on_accepted : Token → Method ℤ
  on_accepted t = do
    id_char ← lift (strtok_next b',' (some t))
    created_id ← lift (to_int (text_of id_char))
    modify λ d. record d {
      connect_queue = d.connect_queue ++ created_id ∷ [];
      connect_sem = d.connect_sem + 1;
    }
    pure (pos 0)

  unfoldable pub deliver : ℤ → Bytes → Method ℤ
  unfolding sem_post
  deliver id content = do
    d ← get
    elim (find id d.sem_map) [
      | none ↦ pure minus_one
      | some id_sem ↦ do
        id_queue ← deref (find id d.queue_map)
        modify λ d. record d { queue_map = insert id (id_queue ++ content ∷ []) d.queue_map }
        sem_post id_sem
        pure (pos 0)
    ]

  unfoldable pub on_sock : Bytes → ℕ → Token → Method ℤ
  on_sock buffer ret t = do
    token ← lift (strtok_next b',' (some t))
    id ← lift (to_int (text_of token))
    n ← lift (id_length id)
    id_char ← deref token
    content ← lift (frame_content buffer id_char.at ret n)
    deliver id content

  unfoldable pub on_close : Token → Method ℤ
  on_close t = do
    id_char ← lift (strtok_next b',' (some t))
    id ← lift (to_int (text_of id_char))
    close id true
    pure (pos 0)

  unfoldable pub classify : Bytes → ℕ → Token → Method ℤ
  classify buffer ret t =
      if beq_bytes t.text (codes "create")
      then (do modify λ d. record d { accept_sem = d.accept_sem + 1 }; pure (pos 0))
      else if beq_bytes t.text (codes "accepted")
      then on_accepted t
      else if beq_bytes t.text (codes "sock")
      then on_sock buffer ret t
      else if beq_bytes t.text (codes "close")
      then on_close t
      else pure minus_one

  -- `listen()`, for the message that `mfrecv_blk` returns, or none if it fails.
  unfoldable pub listen : Option Bytes → Method ℤ
  listen arrival = do
    d ← get
    if unopened d then pure minus_one else elim arrival [
      | none ↦ pure minus_one
      | some message ↦ do
        buffer ← lift (overlay (host.stack max_chunk) message)
        token ← lift (strtok b',' 0 buffer)
        new_message ← deref token
        classify buffer (length message) new_message
    ]
