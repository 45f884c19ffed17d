-- ===== src/MsgDistributor/Delivery.antt =====
-- From `send` at one end over `listen` to `recv` at the other.
use painting_cps.Prelude.{
  ℕ, ◌^◌, ◌≤◌, ◌<◌, ◌≡◌, ◌≢◌, ℤ, pos, minus_one, is_neg, int_eq, [], ◌∷◌, ◌++◌, some, arith, length,
  get_elem?, set, if◌then◌else◌, false, take-all, get_elem?-set_self, lt_of_get_elem?,
}
use painting_cps.Prelude.Assoc.{find, insert, find-insert_self}
use painting_cps.Exec.{done}
use painting_cps.CText.{Bytes}
use painting_cps.MsgDistributor.State.{Host, MsgDistributor, max_chunk}
use painting_cps.MsgDistributor.Frames.{sock_message}
use painting_cps.MsgDistributor.Frames.Laws.{sock_frame_lem}
use painting_cps.MsgDistributor.Methods.{listen, deliver, unopened}
use painting_cps.MsgDistributor.Transfer.{send, recv_response}
use painting_cps.MsgDistributor.Protocol.{listen-sock_message}
use painting_cps.MsgDistributor.Effects.{send_lem, deliver-known, recv_response-message}
use painting_cps.MsgDistributor.Invariant.{Inv}

-- What send puts on the network for an open connection is one message, and listen at the peer
-- delivers exactly the buffer to the connection of the same id, for an id below 10^9, a buffer
-- that is not empty and a message of at most 50000 bytes, between two initialised objects.
pub listen-send :
    (sender receiver : Host) (d e : MsgDistributor) (id p : ℕ) (buffer : Bytes)
    → unopened d ≡ false
    → e.mfsockid ≢ minus_one
    → find (pos id) d.sem_map ≡ some p
    → id < 10 ^ 9
    → buffer ≢ []
    → length (sock_message (pos id) buffer) ≤ max_chunk
    → (frame : Bytes) × (r : ℤ) × (send sender (pos id) buffer d
        ≡ done r (record d { sent = d.sent ++ (d.dst_guid, frame) ∷ [] }))
      × (listen receiver (some frame) e ≡ deliver receiver (pos id) buffer e)
listen-send sender receiver d e id p buffer here there open_id small full fits =
    let frame = sock_message (pos id) buffer in
    let ret = sender.mfsend d.sent d.dst_guid frame in
    (
      frame,
      (if is_neg ret then minus_one else ret),
      send_lem sender d (pos id) p buffer frame here open_id
          (sock_frame_lem sender id buffer small full),
      listen-sock_message receiver e id buffer there small fits,
    )

-- Under the invariant, on an open connection without waiting messages, a delivered content is what
-- the next recv with a buffer of its size returns, and the queue is empty again.
pub recv-deliver :
    (host : Host) (d : MsgDistributor) (id : ℤ) (p : ℕ) (content : Bytes)
    → Inv d
    → find id d.sem_map ≡ some p
    → find id d.queue_map ≡ some []
    → (e f : MsgDistributor) × (deliver host id content d ≡ done (pos 0) e)
      × (recv_response host id (length content) p e ≡ done (pos 1, content) f)
      × (find id f.queue_map ≡ some [])
recv-deliver host d id p content v known empty =
    let (q, fq, fs, ft) = v.maps.opened id p known in
    let posts : get_elem? d.sems p ≡ some 0 = ground (arith, fq, fs, empty) in
    let e = record d { queue_map = insert id (content ∷ []) d.queue_map; sems = set d.sems p 1 } in
    let taken =
      recv_response-message host e id (length content) p 0 content []
        (get_elem?-set_self d.sems p 1 (lt_of_get_elem? d.sems p posts)) ft v.running
        (find-insert_self id (content ∷ []) d.queue_map) (ground arith) in
    (
      e,
      record e { sems = set e.sems p 0; queue_map = insert id [] e.queue_map },
      deliver-known host d id content p 0 [] known empty posts,
      rw (take-all (length content) content (omega arith)) at taken,
      find-insert_self id [] e.queue_map,
    )
