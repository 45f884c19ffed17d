-- ===== src/Examples/Sockets.antt =====
-- A host whose arrays are zeroed, and an object with the open connection 3.
use painting_cps.Prelude.{
  ℕ, ◌+◌, ◌≤◌, ◌≡◌, refl, ℤ, pos, int_eq, beq_ℤ_iff, Bool, minus_one, [], ◌∷◌, ◌++◌, true, false,
  some, arith, replicate, length, length-replicate,
}
use painting_cps.Prelude.Assoc.{find}
use painting_cps.Exec.{ok, fault, done, int_overflow}
use painting_cps.CText.{Bytes, codes}
use painting_cps.MsgDistributor.State.{Host, MsgDistributor, new}
use painting_cps.MsgDistributor.Frames.{id_length}
use painting_cps.MsgDistributor.Frames.Laws.{
  id_length-overflow, length-sock_message, length-print_nat-le,
}
use painting_cps.MsgDistributor.Methods.{init, unopened, listen, deliver}
use painting_cps.MsgDistributor.Connections.{next_id}
use painting_cps.MsgDistributor.Transfer.{send, recv_response}
use painting_cps.MsgDistributor.Delivery.{listen-send, recv-deliver}
use painting_cps.MsgDistributor.Ids.{IsNextId, next_id-found}
use painting_cps.MsgDistributor.Invariant.{Inv, Keeps, deliver-Inv, init-new}
use painting_cps.MsgDistributor.Invariant.Tables.{Maps}

pub zeros : ℕ → Bytes
zeros n = replicate n 0

pub length-zeros : (n : ℕ) → length (zeros n) ≡ n
unfolding zeros
length-zeros n = length-replicate n 0

abbrev pub host : Host
host = record { stack = zeros; length-stack = length-zeros; mfsend = λ sent guid message. pos 1 }

-- Connection 3 is open, and an accepted id waits for `connect`.
abbrev pub open_three : MsgDistributor
open_three = record {
  src_guid = pos 101;
  dst_guid = pos 102;
  stop = false;
  mfsockid = pos 0;
  send_lock = false;
  id_lock = true;
  map_lock = false;
  connect_sem = 1;
  connect_queue = pos 4 ∷ [];
  accept_sem = 0;
  sems = 0 ∷ [];
  sem_map = (pos 3, 0) ∷ [];
  queue_map = (pos 3, []) ∷ [];
  status_map = (pos 3, 1) ∷ [];
  sent = [];
}

open_three-Maps : Maps open_three.sems open_three.sem_map open_three.queue_map open_three.status_map
unfolding find
open_three-Maps = record {
  opened = λ id p e. ([], ground (arith, e), ground (arith, e), ground (arith, e));
  closed = λ id e. ground (arith, e);
  apart = λ i j p e f. ground (arith, e, f, beq_ℤ_iff (pos 3) i, beq_ℤ_iff (pos 3) j);
}

pub open_three-Inv : Inv open_three
open_three-Inv = record {
  maps = open_three-Maps;
  answered = refl;
  map_free = refl;
  send_free = refl;
  running = refl;
}

abbrev pub hello : Bytes
hello = codes "hello"

listen-send_example :
    (frame : Bytes) × (r : ℤ) × (send host (pos 3) hello open_three
      ≡ done r (record open_three { sent = [] ++ (pos 102, frame) ∷ [] }))
    × (listen host (some frame) open_three ≡ deliver host (pos 3) hello open_three)
unfolding find
listen-send_example =
    listen-send host host open_three open_three 3 0 hello refl (ground arith) refl (omega arith)
      (ground arith) (omega (arith, length-sock_message 3 hello, length-print_nat-le 3))

recv-deliver_example :
    (e f : MsgDistributor) × (deliver host (pos 3) hello open_three ≡ done (pos 0) e)
    × (recv_response host (pos 3) (length hello) 0 e ≡ done (pos 1, hello) f)
    × (find (pos 3) f.queue_map ≡ some [])
unfolding find
recv-deliver_example = recv-deliver host open_three (pos 3) 0 hello open_three-Inv refl refl

next_id-found_example :
    (j : ℕ) × (next_id 2 open_three.sem_map (pos 2) ≡ ok (pos j))
    × IsNextId open_three.sem_map 2 j
    × (j ≤ 2 + length open_three.sem_map + 1)
next_id-found_example = next_id-found 2 open_three.sem_map 2 (omega arith) (omega arith)

deliver-Inv_example : Keeps (deliver host (pos 3) hello open_three)
deliver-Inv_example = deliver-Inv host open_three-Inv (pos 3) hello

id_length-overflow_example : id_length (pos 2000000000) ≡ fault int_overflow
id_length-overflow_example = id_length-overflow 2000000000 (omega arith) (omega arith)

-- An object in memory that another one had.
init-new_example :
    (d : MsgDistributor) × (init (pos 0) true true (pos 7) (pos 8) (new open_three)
      ≡ done (pos 0) d)
    × Inv d
    × (unopened d ≡ false)
    × (d.src_guid ≡ pos 7)
    × (d.dst_guid ≡ pos 8)
    × ((mfopen src dst : ℤ) (mutexes_ok sems_ok : Bool)
        → init mfopen mutexes_ok sems_ok src dst d ≡ done minus_one d)
init-new_example = init-new open_three (pos 7) (pos 8)
