-- ===== src/Examples/Threads.antt =====
-- A session of one picture, from the start of both threads to their end.
use painting_cps.Prelude.{◌⊎◌, ◌≤◌, ◌≡◌, refl, List, [], ◌∷◌, ◌++◌, arith, true, false, none, some}
use painting_cps.CText.{Bytes, codes}
use painting_cps.Sessions.{
  Session, idle, claiming, over, failed, begin_transmit, begin_result, enqueue, signal, hang_up,
  take_turn, launch,
}
use painting_cps.Sessions.Phases.{enqueues, signals, hangs_up, takes_turn, launches}
use painting_cps.Sessions.Ending.{measure, IsEnded, GoesOn, Run, here, then, hung_up-ends}
use painting_cps.Sessions.Order.{Reach, begins, steps, over-started, children-le}

abbrev picture : Bytes
picture = codes "a.jpg"

-- The states in their order.
abbrev fresh : Session
fresh = record {
  img_queue = none;
  sem_match = none;
  known = false;
  posting = false;
  stopped = false;
  stage = idle;
  logins = some 2;
  process_sem = 5;
  children = 0;
  started = [];
  global_stop = false;
  trans_info = [];
  unread = 0;
  matched = [];
}

abbrev begun : Session
begun = record fresh { img_queue = some []; sem_match = some 0 }

abbrev queued : Session
queued = record begun { img_queue = some (picture ∷ []); posting = true }

abbrev posted : Session
posted = record queued { sem_match = some 1; known = true; posting = false }

abbrev taken : Session
taken = record posted { sem_match = some 0; stage = claiming }

abbrev launched : Session
launched = record taken {
  img_queue = some [];
  process_sem = 4;
  children = 1;
  started = picture ∷ [];
  stage = idle;
  trans_info = picture;
  unread = 1;
}

abbrev left : Session
left = record launched { sem_match = some 1; stopped = true }

abbrev ended : Session
ended = record left { img_queue = none; sem_match = none; logins = none; stage = over }

Reach-launched : Reach 5 (picture ∷ []) launched
unfolding begin_transmit begin_result enqueue signal take_turn launch
Reach-launched =
    let r₀ : Reach 5 [] begun = begins fresh refl refl (omega arith) refl in
    let r₁ : Reach 5 (picture ∷ []) queued = steps r₀ (enqueues picture refl refl refl) in
    let r₂ : Reach 5 (picture ∷ []) posted = steps r₁ (signals refl refl) in
    let r₃ : Reach 5 (picture ∷ []) taken = steps r₂ (takes_turn refl refl) in
    steps r₃ (launches true refl refl)

Reach-ended : Reach 5 (picture ∷ []) ended
unfolding hang_up take_turn
Reach-ended =
    let r₄ : Reach 5 (picture ∷ []) left = steps Reach-launched (hangs_up refl refl refl) in
    steps r₄ (takes_turn refl refl)

Reach-left : Reach 5 (picture ∷ []) left
unfolding hang_up
Reach-left = steps Reach-launched (hangs_up refl refl refl)

Run-ended : Run 1 left ended
unfolding take_turn
Run-ended = then (takes_turn refl refl) (here ended)

hung_up-ends_example : (1 ≤ measure left) × (IsEnded (picture ∷ []) ended ⊎ GoesOn ended)
hung_up-ends_example = hung_up-ends Reach-left (omega arith) refl Run-ended refl

over-started_example :
    ((ended.stage ≡ over) → (ended.started ≡ picture ∷ []))
    × ((ended.stage ≡ failed)
        → (file : Bytes) × (later : List Bytes) × (ended.started ++ file ∷ later ≡ picture ∷ []))
over-started_example = over-started Reach-ended refl

children-le_example : launched.children ≤ 5
children-le_example = children-le Reach-launched
