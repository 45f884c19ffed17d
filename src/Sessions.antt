-- ===== src/Sessions.antt =====
-- A user's two threads on the server, in the mode without Storm: `server_transmit` queues file
-- names, `server_result` takes them and starts a thread `result_child` for each. The maps are seen
-- at the user's name.
pub mod Phases
pub mod Places
pub mod Turns
pub mod Order
pub mod Ending
use painting_cps.Prelude.{
  ℕ, zero, suc, ◌+◌, ◌-◌, ◌≤◌, ◌<◌, ◌≡◌, refl, List, [], ◌∷◌, ◌++◌, Bool, true, false, Option, none,
  some, ◌||◌, if◌then◌else◌, arith, length, length-append,
}
use painting_cps.Exec.{Outcome, done, waits, faults, null_pointer}
use painting_cps.CText.{Bytes}

-- Where the result thread stands: it waits for its semaphore, or for `process_sem`, or has ended, as
-- the client is gone, as the server is stopped, or as no thread could be created.
pub data Stage : Type 0 where
  idle claiming over halted failed : Stage

-- Behind the loop the semaphore is deleted, but the map still has the pointer.
abbrev pub is_dangling : Stage → Bool
is_dangling idle = false
is_dangling claiming = false
is_dangling over = false
is_dangling halted = true
is_dangling failed = true

-- `sem_match` and `img_queue` are what the user's entries of `sem_map` and `queue_map` point to,
-- `known` tells that the transmit thread has read `sem_map`, `posting` that it has queued a name and
-- not yet posted, `stopped` that it has ended, and `logins` is the entry of `user_map`. `children`
-- counts the child threads that run, `unread` those of them that have not read their file name yet,
-- which stands in the loop's variable `trans_info` for all of them; `started` lists the names that
-- were in it when a child was started, and `matched` those that the children read.
pub record Session : Type 0 where
  pub img_queue : Option (List Bytes)
  pub sem_match : Option ℕ
  pub known : Bool
  pub posting : Bool
  pub stopped : Bool
  pub stage : Stage
  pub logins : Option ℕ
  pub process_sem : ℕ
  pub children : ℕ
  pub started : List Bytes
  pub global_stop : Bool
  pub trans_info : Bytes
  pub unread : ℕ
  pub matched : List Bytes

-- `server_transmit` up to its loop: an empty queue is put into the map.
unfoldable pub begin_transmit : Session → Session
begin_transmit s = record s { img_queue = some []; known = false; posting = false; stopped = false }

-- `while(!global_stop)` of `server_result`; behind the loop the semaphore is deleted.
abbrev pub test_stop : Session → Session
test_stop s =
    if s.global_stop
    then record s { sem_match = none; stage = halted }
    else record s { stage = idle }

-- `server_result` up to its first wait: a semaphore of 0 is put into the map.
unfoldable pub begin_result : Session → Session
begin_result s = test_stop (record s { sem_match = some 0 })

-- The end of a round of `server_transmit`: the name is queued.
unfoldable pub enqueue : Bytes → Session → Outcome Session (Unit {0})
enqueue file_name s = elim s.img_queue [
  | none ↦ faults null_pointer
  | some q ↦ done tt (record s { img_queue = some (q ++ file_name ∷ []); posting = true })
]

-- Then the semaphore is posted. At first the thread looks for it in the map until it is there; later
-- it uses the pointer that it knows, which is freed when the result thread has ended.
unfoldable pub signal : Session → Outcome Session (Unit {0})
signal s = elim s.sem_match [
  | none ↦ if s.known || is_dangling s.stage then faults null_pointer else waits s
  | some n ↦ done tt (record s { sem_match = some (suc n); known = true; posting = false })
]

-- The client is gone: the semaphore is posted through the thread's own pointer, which is null
-- before the first picture.
unfoldable pub hang_up : Session → Outcome Session (Unit {0})
hang_up s =
    if s.known
    then elim s.sem_match [
      | none ↦ faults null_pointer
      | some n ↦ done tt (record s { sem_match = some (suc n); stopped = true })
    ]
    else faults null_pointer

-- `while (!global_stop)` of `server_transmit` ends: the queue is deleted, but the map still has the
-- pointer. Nothing is posted.
unfoldable pub quit : Session → Session
quit s = record s { img_queue = none; stopped = true }

-- The signal handler.
unfoldable pub stop_all : Session → Session
stop_all s = record s { global_stop = true }

-- A round of `server_result` up to `sem_wait(&process_sem)`. With an empty queue the user's entries
-- are erased.
unfoldable pub take_turn : Session → Outcome Session (Unit {0})
take_turn s = elim s.sem_match [
  | none ↦ faults null_pointer
  | some zero ↦ waits s
  | some (suc n) ↦ elim s.img_queue [
    | none ↦ faults null_pointer
    | some [] ↦
        done tt (record s { img_queue = none; sem_match = none; logins = none; stage = over })
    | some (_ ∷ _) ↦ done tt (record s { sem_match = some n; stage = claiming })
  ]
]

-- The round from `sem_wait(&process_sem)` on: the first name is taken and a thread started for it,
-- and the loop tests `global_stop` again. `created` tells that `pthread_create` made the thread; if
-- not, it is taken to return -1, and the loop is left.
unfoldable pub launch : Bool → Session → Outcome Session (Unit {0})
launch created s = elim s.process_sem [
  | zero ↦ waits s
  | suc n ↦ elim s.img_queue [
    | none ↦ faults null_pointer
    | some [] ↦ faults null_pointer
    | some (file_name ∷ rest) ↦
        let taken = record s { process_sem = n; img_queue = some rest; trans_info = file_name } in
        done tt (
          if created
          then test_stop (record taken {
            children = s.children + 1;
            unread = s.unread + 1;
            started = s.started ++ file_name ∷ [];
          })
          else record taken { sem_match = none; stage = failed })
  ]
]

-- A `result_child` reads its name through the pointer that it was given.
unfoldable pub begin_child : Session → Session
begin_child s = record s { unread = s.unread - 1; matched = s.matched ++ s.trans_info ∷ [] }

-- The end of a `result_child`.
unfoldable pub end_child : Session → Session
end_child s = record s { process_sem = s.process_sem + 1; children = s.children - 1 }
