-- ===== src/Sessions/Ending.antt =====
-- When the client has hung up, the session comes to its end under every schedule.
use painting_cps.Prelude.{
  ℕ, zero, suc, ◌+◌, ◌*◌, ◌≤◌, ◌<◌, ◌≡◌, refl, subst, ap, ◌∙◌, ◌⊎◌, inl, inr, List, [], ◌∷◌, ◌++◌,
  Bool, true, false, Option, none, some, arith, length, append-nil,
}
use painting_cps.Exec.{done}
use painting_cps.CText.{Bytes}
use painting_cps.Sessions.{
  Session, Stage, idle, claiming, over, halted, failed, begin_child, end_child, take_turn, launch,
}
use painting_cps.Sessions.Phases.{
  Step, enqueues, signals, hangs_up, takes_turn, launches, begins_child, ends_child, stops, quits,
  Phase, lost, SessionInv, done-inj,
}
use painting_cps.Sessions.Order.{Reach, Reach-SessionInv, Step-SessionInv, stop_all-ne}
use painting_cps.Sessions.Places.{Step-Holding}

abbrev waiting : Option (List Bytes) → ℕ
waiting none = 0
waiting (some q) = length q

abbrev weight : Stage → ℕ
weight idle = 1
weight claiming = 0
weight over = 0
weight halted = 0
weight failed = 0

-- How many steps a session that is hung up can still take at most.
abbrev pub measure : Session → ℕ
measure s = waiting s.img_queue * 4 + weight s.stage + s.children + s.unread

turn-measure :
    (files : List Bytes) (s t : Session)
    → Phase idle files s
    → s.stage ≡ idle
    → take_turn s ≡ done tt t
    → (measure t < measure s) × (t.stopped ≡ s.stopped)
unfolding take_turn
turn-measure files s t ([], zero, fq, fs, bal, ord) at e = absurd (ground (arith, fq, fs, e))
turn-measure files s t (f ∷ q, zero, fq, fs, bal, ord) at e = absurd (ground (arith, fq, fs, e))
turn-measure files s t ([], suc n, fq, fs, bal, ord) at e =
    let u = record s { img_queue = none; sem_match = none; logins = none; stage = over } in
    let same : u ≡ t = done-inj (rw (fs, fq) at e) in
    subst (λ (w : Session). (measure w < measure s) × (w.stopped ≡ s.stopped)) same
      (rw (fq, at) (omega arith), refl)
turn-measure files s t (f ∷ q, suc n, fq, fs, bal, ord) at e =
    let u = record s { sem_match = some n; stage = claiming } in
    let same : u ≡ t = done-inj (rw (fs, fq) at e) in
    subst (λ (w : Session). (measure w < measure s) × (w.stopped ≡ s.stopped)) same
      (omega (arith, ap weight at), refl)

launch-measure :
    (files : List Bytes) (created : Bool) (m : ℕ) (s t : Session)
    → s.process_sem ≡ m
    → s.global_stop ≡ false
    → Phase claiming files s
    → launch created s ≡ done tt t
    → (measure t < measure s) × (t.stopped ≡ s.stopped)
unfolding launch
launch-measure files created zero s t hm live (q, n, fq, fs, bal, ord, ne) e =
    absurd (ground (arith, hm, e))
launch-measure files created (suc m) s t hm live ([], n, fq, fs, bal, ord, ne) e =
    absurd (omega (arith, ne))
launch-measure files true (suc m) s t hm live (f ∷ q, n, fq, fs, bal, ord, ne) e =
    let u = record s {
      process_sem = m;
      img_queue = some q;
      children = s.children + 1;
      started = s.started ++ f ∷ [];
      stage = idle;
      global_stop = false;
      trans_info = f;
      unread = s.unread + 1;
    } in
    let same : u ≡ t = done-inj (rw (hm, fq, live) at e) in
    subst (λ (w : Session). (measure w < measure s) × (w.stopped ≡ s.stopped)) same
      (omega (arith, ap waiting fq), refl)
launch-measure files false (suc m) s t hm live (f ∷ q, n, fq, fs, bal, ord, ne) e =
    let u = record s {
      process_sem = m;
      img_queue = some q;
      sem_match = none;
      stage = failed;
      trans_info = f;
    } in
    let same : u ≡ t = done-inj (rw (hm, fq) at e) in
    subst (λ (w : Session). (measure w < measure s) × (w.stopped ≡ s.stopped)) same
      (omega (arith, ap waiting fq), refl)

-- Every step brings the end nearer, and none queues another file.
Step-measure :
    {most : ℕ} {files new : List Bytes} {s t : Session}
    → SessionInv most files s
    → s.stopped ≡ true
    → Step new s t
    → t.global_stop ≡ false
    → (measure t < measure s) × (t.stopped ≡ true) × (new ≡ [])
Step-measure v ended (enqueues f running ready e) runs = absurd (ground (arith, ended, running))
Step-measure v ended (signals posts e) runs = absurd (ground (arith, ended, posts, v.one_end))
Step-measure v ended (hangs_up running ready e) runs = absurd (ground (arith, ended, running))
Step-measure {files = files} {s = s} {t = t} v ended (takes_turn at e) runs =
    let (less, same) =
      turn-measure files s t (subst (λ (x : Stage). Phase x files s) at v.phase) at e in
    (less, same ∙ ended, refl)
Step-measure {files = files} {s = s} {t = t} v ended (launches created at e) runs =
    let (less, same) =
      launch-measure files created s.process_sem s t refl v.live
        (subst (λ (x : Stage). Phase x files s) at v.phase) e in
    (less, same ∙ ended, refl)
Step-measure {s = s} v ended (begins_child some_child) runs =
    unfold begin_child in (omega (arith, some_child), ended, refl)
Step-measure {s = s} v ended (ends_child some_child) runs =
    unfold end_child in (omega (arith, some_child), ended, refl)
Step-measure {s = s} v ended stops runs = absurd (stop_all-ne s runs)
Step-measure v ended (quits running ready stop) runs = absurd (ground (arith, v.live, stop))

turns :
    (files : List Bytes) (s : Session)
    → Phase idle files s
    → s.stopped ≡ true
    → s.posting ≡ false
    → s.global_stop ≡ false
    → (u : Session) × (take_turn s ≡ done tt u) × (u.global_stop ≡ false)
unfolding take_turn
turns files s ([], zero, fq, fs, bal, ord) ended quiet live =
    absurd (ground (arith, bal, ended, quiet))
turns files s (f ∷ q, zero, fq, fs, bal, ord) ended quiet live =
    absurd (ground (arith, bal, ended, quiet))
turns files s ([], suc n, fq, fs, bal, ord) ended quiet live = (
  record s { img_queue = none; sem_match = none; logins = none; stage = over },
  rw (fs, fq) refl,
  live,
)
turns files s (f ∷ q, suc n, fq, fs, bal, ord) ended quiet live =
    (record s { sem_match = some n; stage = claiming }, ground (arith, fs, fq), live)

launches_now :
    (files : List Bytes) (s : Session) (m : ℕ)
    → s.process_sem ≡ suc m
    → s.global_stop ≡ false
    → Phase claiming files s
    → (u : Session) × (launch true s ≡ done tt u) × (u.global_stop ≡ false)
unfolding launch
launches_now files s m hm live ([], n, fq, fs, bal, ord, ne) = absurd (omega (arith, ne))
launches_now files s m hm live (f ∷ q, n, fq, fs, bal, ord, ne) = (
  record s {
    process_sem = m;
    img_queue = some q;
    children = s.children + 1;
    started = s.started ++ f ∷ [];
    stage = idle;
    global_stop = false;
    trans_info = f;
    unread = s.unread + 1;
  },
  rw (hm, fq, live) refl,
  refl,
)

-- A step with which the server is not stopped.
abbrev pub GoesOn : Session → Type 0
GoesOn s = (u : Session) × Step [] s u × (u.global_stop ≡ false)

-- A child thread that is there goes on.
child_moves :
    (s : Session) (k : ℕ) → s.global_stop ≡ false → s.unread ≡ k → 1 ≤ s.children → GoesOn s
child_moves s zero live none_unread some_child =
    (end_child s, ends_child (omega (arith, none_unread, some_child)), unfold end_child in live)
child_moves s (suc k) live some_unread some_child =
    (begin_child s, begins_child (omega (arith, some_unread)), unfold begin_child in live)

-- How the result thread ends when the client is gone: every file has a child thread, or no thread
-- could be created for one of them, and those before it have theirs.
abbrev pub IsEnded : List Bytes → Session → Type 0
IsEnded files t =
    ((t.stage ≡ over) × (t.started ≡ files))
    ⊎ ((t.stage ≡ failed)
        × ((file : Bytes) × (later : List Bytes) × (t.started ++ file ∷ later ≡ files)))

goes_on :
    {most : ℕ} {files : List Bytes} (s : Session) (st : Stage) (m : ℕ)
    → SessionInv most files s
    → 1 ≤ most
    → s.stopped ≡ true
    → s.stage ≡ st
    → s.process_sem ≡ m
    → IsEnded files s ⊎ GoesOn s
goes_on {files = files} s over m v some_place ended at hm =
    inl (inl (at, (subst (λ (x : Stage). Phase x files s) at v.phase).2))
goes_on {files = files} s halted m v some_place ended at hm =
    absurd (subst (λ (x : Stage). Phase x files s) at v.phase)
goes_on {files = files} s failed m v some_place ended at hm =
    let (f, q, fq, fs, ord) = subst (λ (x : Stage). Phase x files s) at v.phase in
    inl (inr (at, (f, q, ord)))
goes_on {files = files} s idle m v some_place ended at hm =
    let (u, e, live) =
      turns files s (subst (λ (x : Stage). Phase x files s) at v.phase) ended
        (ground (arith, v.one_end, ended)) v.live in
    inr (u, takes_turn at e, live)
goes_on s claiming zero v some_place ended at hm =
    inr (child_moves s s.unread v.live refl (omega (arith, v.places, some_place, hm, ap lost at)))
goes_on {files = files} s claiming (suc m) v some_place ended at hm =
    let (u, e, live) =
      launches_now files s m hm v.live (subst (λ (x : Stage). Phase x files s) at v.phase) in
    inr (u, launches true at e, live)

-- Steps of the threads one after another.
pub data Run : ℕ → Session → Session → Type 0 where
  here : (s : Session) → Run 0 s s
  then : {n : ℕ} {new : List Bytes} {s t u : Session} → Step new s t → Run n t u → Run (suc n) s u

Run-live : {n : ℕ} {s t : Session} → Run n s t → t.global_stop ≡ false → s.global_stop ≡ false
Run-live (here s) live = live
Run-live (then step rest) live = (Step-Holding step).1 (Run-live rest live)

Run-measure :
    {most n : ℕ} {files : List Bytes} {s t : Session}
    → SessionInv most files s
    → s.stopped ≡ true
    → Run n s t
    → t.global_stop ≡ false
    → SessionInv most files t × (t.stopped ≡ true) × (n + measure t ≤ measure s)
Run-measure v ended (here s) live = (v, ended, omega arith)
Run-measure {most} {files = files} v ended (then {t = t} step rest) live =
    let runs = Run-live rest live in
    let (less, still, none_new) = Step-measure v ended step runs in
    let w : SessionInv most files t =
      rw (none_new, append-nil files) at (Step-SessionInv v step runs) in
    let (final, stopped, total) = Run-measure w still rest live in
    (final, stopped, omega (arith, less, total))

pub hung_up-ends :
    {most n : ℕ} {files : List Bytes} {s t : Session}
    → Reach most files s
    → 1 ≤ most
    → s.stopped ≡ true
    → Run n s t
    → t.global_stop ≡ false
    → (n ≤ measure s) × (IsEnded files t ⊎ GoesOn t)
hung_up-ends {t = t} r some_place ended run live =
    let (v, still, total) = Run-measure (Reach-SessionInv r (Run-live run live)) ended run live in
    (omega (arith, total), goes_on t t.stage t.process_sem v some_place still refl refl)
