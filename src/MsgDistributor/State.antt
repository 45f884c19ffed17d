-- ===== src/MsgDistributor/State.antt =====
-- The object's fields, the semaphores and mutexes as its methods use them, and the MobilityFirst
-- network behind `mfapi.h`, which is a parameter. Messages that are only printed are left out.
use painting_cps.Prelude.{
  ℕ, zero, suc, ◌≡◌, ℤ, minus_one, Bool, true, false, List, [], ◌∷◌, ◌++◌, none, some, length,
  get_elem?, set, if◌then◌else◌,
}
use painting_cps.Exec.{Exec, done, waits, faults, null_pointer}
use painting_cps.CText.{Bytes}

-- What the methods rely on outside the class. `stack n` is what a fresh array of `n` bytes holds, and
-- `mfsend` the value that the call returns after the earlier calls of the list, for a GUID and a
-- message.
pub record Host : Type 0 where
  pub stack : ℕ → Bytes
  pub length-stack : (n : ℕ) → length (stack n) ≡ n
  pub mfsend : List (ℤ × Bytes) → ℤ → Bytes → ℤ

-- Semaphores live on the heap `sems`: the maps hold indices into it, and a thread that waits keeps
-- its index. A queue is reached through `queue_map` only. `sent` lists the calls of `mfsend`.
pub record MsgDistributor : Type 0 where
  pub src_guid : ℤ
  pub dst_guid : ℤ
  pub stop : Bool
  pub mfsockid : ℤ
  pub send_lock : Bool
  pub id_lock : Bool
  pub map_lock : Bool
  pub connect_sem : ℕ
  pub connect_queue : List ℤ
  pub accept_sem : ℕ
  pub sems : List ℕ
  pub sem_map : List (ℤ × ℕ)
  pub queue_map : List (ℤ × List Bytes)
  pub status_map : List (ℤ × ℕ)
  pub sent : List (ℤ × Bytes)

abbrev pub buffer_size : ℕ
buffer_size = 1024

abbrev pub max_chunk : ℕ
max_chunk = 50000

abbrev pub Method : Type 0 → Type 0
Method A = Exec MsgDistributor A

-- The constructor, in memory that held `raw`. The members with initialisers, the queue and the maps
-- have their values; the GUIDs, the mutexes and the two semaphores are set by `init`.
unfoldable pub new : MsgDistributor → MsgDistributor
new raw = record raw {
  stop = false;
  mfsockid = minus_one;
  connect_queue = [];
  sems = [];
  sem_map = [];
  queue_map = [];
  status_map = [];
  sent = [];
}

-- `pthread_mutex_lock` waits while the mutex is held.
unfoldable pub lock_send : Method (Unit {0})
lock_send d = if d.send_lock then waits d else done tt (record d { send_lock = true })

unfoldable pub unlock_send : Method (Unit {0})
unlock_send d = done tt (record d { send_lock = false })

unfoldable pub lock_id : Method (Unit {0})
lock_id d = if d.id_lock then waits d else done tt (record d { id_lock = true })

unfoldable pub unlock_id : Method (Unit {0})
unlock_id d = done tt (record d { id_lock = false })

unfoldable pub lock_map : Method (Unit {0})
lock_map d = if d.map_lock then waits d else done tt (record d { map_lock = true })

unfoldable pub unlock_map : Method (Unit {0})
unlock_map d = done tt (record d { map_lock = false })

-- `new sem_t()` and `sem_init(…, 0, 0)`.
unfoldable pub new_sem : Method ℕ
new_sem d = done (length d.sems) (record d { sems = d.sems ++ 0 ∷ [] })

unfoldable pub sem_post : ℕ → Method (Unit {0})
sem_post p d = elim (get_elem? d.sems p) [
  | none ↦ faults null_pointer
  | some n ↦ done tt (record d { sems = set d.sems p (suc n) })
]

unfoldable pub sem_wait : ℕ → Method (Unit {0})
sem_wait p d = elim (get_elem? d.sems p) [
  | none ↦ faults null_pointer
  | some zero ↦ waits d
  | some (suc n) ↦ done tt (record d { sems = set d.sems p n })
]

unfoldable pub wait_connect_sem : Method (Unit {0})
wait_connect_sem d = elim d.connect_sem [
  | zero ↦ waits d
  | suc n ↦ done tt (record d { connect_sem = n })
]

unfoldable pub wait_accept_sem : Method (Unit {0})
wait_accept_sem d = elim d.accept_sem [
  | zero ↦ waits d
  | suc n ↦ done tt (record d { accept_sem = n })
]

abbrev pub get : Method MsgDistributor
get d = done d d

abbrev pub modify : (MsgDistributor → MsgDistributor) → Method (Unit {0})
modify f d = done tt (f d)

unfoldable pub mf_send : Host → ℤ → Bytes → Method ℤ
mf_send host guid message d =
    done (host.mfsend d.sent guid message) (record d { sent = d.sent ++ (guid, message) ∷ [] })
