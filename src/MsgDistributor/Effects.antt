-- ===== src/MsgDistributor/Effects.antt =====
-- The effect of each method on each branch, as an equation on the object.
use painting_cps.Prelude.{
  ℕ, suc, ◌≡◌, ℤ, pos, minus_one, is_neg, int_eq, Bool, true, false, List, [], ◌∷◌, ◌++◌, none,
  some, arith, length, get_elem?, set, take, leb, if◌then◌else◌,
}
use painting_cps.Prelude.Assoc.{find, insert, erase}
use painting_cps.Exec.{ok, done, waits, faults, out_of_bounds}
use painting_cps.CText.{Bytes}
use painting_cps.MsgDistributor.State.{Host, MsgDistributor, sem_post}
use painting_cps.MsgDistributor.Frames.{command_frame, create_text, close_text, sock_frame}
use painting_cps.MsgDistributor.Methods.{register, deliver, close, unopened, awaiting, returned}
use painting_cps.MsgDistributor.Connections.{connect_request, connect_response}
use painting_cps.MsgDistributor.Transfer.{status_of, send, recv_response}

module _ (host : Host) (d : MsgDistributor) where
  pub deliver-unknown :
      (id : ℤ) (content : Bytes)
      → find id d.sem_map ≡ none
      → deliver host id content d ≡ done minus_one d
  unfolding deliver
  deliver-unknown id content e = ground arith

  -- The content goes to the end of the queue, and the semaphore is posted.
  pub deliver-known :
      (id : ℤ) (content : Bytes) (p n : ℕ) (q : List Bytes)
      → find id d.sem_map ≡ some p
      → find id d.queue_map ≡ some q
      → get_elem? d.sems p ≡ some n
      → deliver host id content d
        ≡ done (pos 0) (record d {
          queue_map = insert id (q ++ content ∷ []) d.queue_map;
          sems = set d.sems p (suc n);
        })
  unfolding deliver sem_post
  deliver-known id content p n q e f g = ground arith

  pub register_lem :
      (id : ℤ)
      → d.map_lock ≡ false
      → register id d
        ≡ done tt (record d {
          sems = d.sems ++ 0 ∷ [];
          queue_map = insert id [] d.queue_map;
          sem_map = insert id (length d.sems) d.sem_map;
          status_map = insert id 1 d.status_map;
          map_lock = false;
        })
  unfolding register
  register_lem id free = ground arith

  -- What a connection leaves when it is closed: a status of 0 and one more post for whoever waits.
  abbrev pub closed_state : ℤ → ℕ → ℕ → MsgDistributor
  closed_state sock p n = record d {
    status_map = insert sock 0 d.status_map;
    sems = set d.sems p (suc n);
    sem_map = erase sock d.sem_map;
    queue_map = erase sock d.queue_map;
    map_lock = false;
  }

  pub close-unknown :
      (sock : ℤ) (passive : Bool)
      → unopened d ≡ false
      → find sock d.sem_map ≡ none
      → close host sock passive d ≡ done minus_one d
  unfolding close
  close-unknown sock passive opened e = ground arith

  pub close-passive :
      (sock : ℤ) (p n : ℕ)
      → unopened d ≡ false
      → d.map_lock ≡ false
      → find sock d.sem_map ≡ some p
      → get_elem? d.sems p ≡ some n
      → close host sock true d ≡ done (pos 0) (closed_state sock p n)
  unfolding close
  close-passive sock p n opened free e g = ground arith

  -- The active side tells the peer, and fails only if the network does; it is closed all the same.
  pub close-active :
      (sock : ℤ) (p n : ℕ) (content : Bytes)
      → unopened d ≡ false
      → d.map_lock ≡ false
      → find sock d.sem_map ≡ some p
      → get_elem? d.sems p ≡ some n
      → command_frame host (close_text sock) ≡ ok content
      → close host sock false d
        ≡ done
            (if is_neg (host.mfsend d.sent d.dst_guid content) then minus_one else pos 0)
            (record (closed_state sock p n) { sent = d.sent ++ (d.dst_guid, content) ∷ [] })
  unfolding close
  close-active sock p n content opened free e g f = ground arith

  -- `connect` sends `create` and goes on to wait with the id lock held; a network error gives the
  -- lock back.
  pub connect_request_lem :
      (header : Bytes)
      → unopened d ≡ false
      → d.id_lock ≡ false
      → d.send_lock ≡ false
      → command_frame host create_text ≡ ok header
      → let sent = d.sent ++ (d.dst_guid, header) ∷ [] in
        connect_request host d ≡ (
          if is_neg (host.mfsend d.sent d.dst_guid header)
          then done
              (returned minus_one)
              (record d { sent = sent; send_lock = false; id_lock = false })
          else done (awaiting tt) (record d { sent = sent; send_lock = false; id_lock = true }))
  unfolding connect_request
  connect_request_lem header opened free free' f = ground arith

  -- The first id of the queue becomes a connection, and the id lock is given back.
  pub connect_response_lem :
      (id : ℤ) (rest : List ℤ) (n : ℕ)
      → d.map_lock ≡ false
      → d.stop ≡ false
      → d.connect_sem ≡ suc n
      → d.connect_queue ≡ id ∷ rest
      → connect_response host d
        ≡ done id (record d {
          connect_sem = n;
          connect_queue = rest;
          sems = d.sems ++ 0 ∷ [];
          queue_map = insert id [] d.queue_map;
          sem_map = insert id (length d.sems) d.sem_map;
          status_map = insert id 1 d.status_map;
          map_lock = false;
          id_lock = false;
        })
  unfolding connect_response
  connect_response_lem id rest n free running e f = ground arith

  pub send_lem :
      (sock : ℤ) (p : ℕ) (buffer content : Bytes)
      → unopened d ≡ false
      → find sock d.sem_map ≡ some p
      → sock_frame host sock buffer ≡ ok content
      → let ret = host.mfsend d.sent d.dst_guid content in
        send host sock buffer d
        ≡ done
            (if is_neg ret then minus_one else ret)
            (record d { sent = d.sent ++ (d.dst_guid, content) ∷ [] })
  unfolding send
  send_lem sock p buffer content opened e f = ground arith

  -- A thread that was woken by `close` returns -1 and forgets the status.
  pub recv_response-closed :
      (sock : ℤ) (size p n : ℕ)
      → get_elem? d.sems p ≡ some (suc n)
      → status_of (find sock d.status_map) ≡ 0
      → d.map_lock ≡ false
      → recv_response host sock size p d
        ≡ done
            (minus_one, [])
            (record d {
              sems = set d.sems p n;
              status_map = erase sock d.status_map;
              map_lock = false;
            })
  unfolding recv_response
  recv_response-closed sock size p n e f free = ground arith

  -- A thread that was woken by a message takes the first one of the queue, and must not ask for more
  -- bytes than it has.
  pub recv_response-message :
      (sock : ℤ) (size p n : ℕ) (content : Bytes) (rest : List Bytes)
      → get_elem? d.sems p ≡ some (suc n)
      → find sock d.status_map ≡ some 1
      → d.stop ≡ false
      → find sock d.queue_map ≡ some (content ∷ rest)
      → leb size (length content) ≡ true
      → recv_response host sock size p d
        ≡ done
            (pos 1, take size content)
            (record d { sems = set d.sems p n; queue_map = insert sock rest d.queue_map })
  unfolding recv_response
  recv_response-message sock size p n content rest e f running q room = ground arith

  pub recv_response-beyond :
      (sock : ℤ) (size p n : ℕ) (content : Bytes) (rest : List Bytes)
      → get_elem? d.sems p ≡ some (suc n)
      → find sock d.status_map ≡ some 1
      → d.stop ≡ false
      → find sock d.queue_map ≡ some (content ∷ rest)
      → leb size (length content) ≡ false
      → recv_response host sock size p d ≡ faults out_of_bounds
  unfolding recv_response
  recv_response-beyond sock size p n content rest e f running q room = ground arith

  pub connect_response-waits : d.connect_sem ≡ 0 → connect_response host d ≡ waits d
  unfolding connect_response
  connect_response-waits e = ground arith

  pub recv_response-waits :
      (sock : ℤ) (size p : ℕ)
      → get_elem? d.sems p ≡ some 0
      → recv_response host sock size p d ≡ waits d
  unfolding recv_response
  recv_response-waits sock size p e = ground arith
