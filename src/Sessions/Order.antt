-- ===== src/Sessions/Order.antt =====
-- However the threads of a session interleave, no file is lost and their order is kept.
use painting_cps.Prelude.{
  ℕ, ◌+◌, ◌≤◌, ◌<◌, ◌≡◌, ◌≢◌, ap, ◌∷◌, refl, sym, subst, ◌∙◌, ◌⊎◌, inl, inr, List, [], ◌++◌, false,
  Bool-cases, arith, append-nil,
}
use painting_cps.Exec.{Outcome, done}
use painting_cps.CText.{Bytes}
use painting_cps.Sessions.{
  Session, Stage, idle, claiming, over, begin_transmit, begin_result, begin_child, end_child,
  stop_all, halted, failed,
}
use painting_cps.Sessions.Places.{Step-Holding}
use painting_cps.Sessions.Turns.{take_turn-Phase, launch-Phase}
use painting_cps.Sessions.Phases.{
  Step, enqueues, signals, hangs_up, takes_turn, launches, begins_child, ends_child, stops, quits,
  Phase, lost, Quiet, SessionInv, begin-SessionInv, done-inj, enqueue-Phase, signal-Phase,
  hang_up-Phase,
}

settle :
    {most : ℕ} {files more : List Bytes} (s u t : Session)
    → ◌≡◌ {A = Outcome Session (Unit {0})} (done tt u) (done tt t)
    → SessionInv most files s
    → Phase s.stage more u
    → u.stage ≡ s.stage
    → Quiet s u
    → (u.stopped ≡ false) ⊎ (u.posting ≡ false)
    → SessionInv most more t
settle {most} {more = more} s u t e v ph at (places, reads, runs, flag) one =
    subst (λ (w : Session). SessionInv most more w) (done-inj e)
      (record {
        phase = subst (λ (x : Stage). Phase x more u) (sym at) ph;
        places = omega (arith, v.places, places, ap lost at);
        reading = omega (arith, v.reading, reads, runs);
        live = flag ∙ v.live;
        one_end = one;
      })

end_child-Phase :
    (files : List Bytes) (st : Stage) (s : Session)
    → Phase st files s
    → Phase st files (end_child s)
unfolding end_child
end_child-Phase files idle s ph = ph
end_child-Phase files claiming s ph = ph
end_child-Phase files over s ph = ph
end_child-Phase files halted s ph = ph
end_child-Phase files failed s ph = ph

begin_child-Phase :
    (files : List Bytes) (st : Stage) (s : Session)
    → Phase st files s
    → Phase st files (begin_child s)
unfolding begin_child
begin_child-Phase files idle s ph = ph
begin_child-Phase files claiming s ph = ph
begin_child-Phase files over s ph = ph
begin_child-Phase files halted s ph = ph
begin_child-Phase files failed s ph = ph

begin_child-SessionInv :
    {most : ℕ} {files : List Bytes} (s : Session)
    → SessionInv most files s
    → SessionInv most files (begin_child s)
unfolding begin_child
begin_child-SessionInv {files = files} s v = record {
  phase = begin_child-Phase files s.stage s v.phase;
  places = v.places;
  reading = omega (arith, v.reading);
  live = v.live;
  one_end = v.one_end;
}

end_child-SessionInv :
    {most : ℕ} {files : List Bytes} (s : Session)
    → SessionInv most files s
    → s.unread < s.children
    → SessionInv most files (end_child s)
unfolding end_child
end_child-SessionInv {files = files} s v some_child = record {
  phase = end_child-Phase files s.stage s v.phase;
  places = omega (arith, v.places, some_child);
  reading = omega (arith, some_child);
  live = v.live;
  one_end = v.one_end;
}

pub stop_all-ne : (s : Session) → (stop_all s).global_stop ≢ false
unfolding stop_all
stop_all-ne s e = ground (arith, e)

-- No step breaks the invariant while the server is not stopped.
pub Step-SessionInv :
    {most : ℕ} {files new : List Bytes} {s t : Session}
    → SessionInv most files s
    → Step new s t
    → t.global_stop ≡ false
    → SessionInv most (files ++ new) t
Step-SessionInv {files = files} {s = s} {t = t} v (enqueues f running ready e) live =
    let (u, eq, ph, at, quiet, same) = enqueue-Phase files s s.stage f v.phase running ready in
    settle s u t (sym eq ∙ e) v ph at quiet (inl (same ∙ running))
Step-SessionInv {files = files} {s = s} {t = t} v (signals posts e) live =
    let (u, eq, ph, at, quiet, posted) = signal-Phase files s s.stage t v.phase posts e in
    rw (append-nil files) (settle s u t (sym eq ∙ e) v ph at quiet (inr posted))
Step-SessionInv {files = files} {s = s} {t = t} v (hangs_up running ready e) live =
    let (u, eq, ph, at, quiet, same) = hang_up-Phase files s s.stage t v.phase running e in
    rw (append-nil files) (settle s u t (sym eq ∙ e) v ph at quiet (inr (same ∙ ready)))
Step-SessionInv {files = files} {s = s} {t = t} v (takes_turn at e) live =
    let (ph, (places, reads, runs, flag), kept, one) =
      take_turn-Phase files s t (subst (λ (x : Stage). Phase x files s) at v.phase) v.one_end e in
    rw (append-nil files) (record {
      phase = ph;
      places = omega (arith, v.places, places, ap lost at, kept);
      reading = omega (arith, v.reading, reads, runs);
      live = flag ∙ v.live;
      one_end = one;
    })
Step-SessionInv {files = files} {s = s} {t = t} v (launches created at e) live =
    let (ph, places, reads, runs_on, one) =
      launch-Phase files s created s.process_sem t refl v.live
        (subst (λ (x : Stage). Phase x files s) at v.phase) v.one_end e in
    rw (append-nil files) (record {
      phase = ph;
      places = omega (arith, v.places, places, ap lost at);
      reading = omega (arith, v.reading, reads);
      live = runs_on;
      one_end = one;
    })
Step-SessionInv {files = files} {s = s} v (begins_child some_child) live =
    rw (append-nil files) (begin_child-SessionInv s v)
Step-SessionInv {files = files} {s = s} v (ends_child some_child) live =
    rw (append-nil files) (end_child-SessionInv s v some_child)
Step-SessionInv {s = s} v stops live = absurd (stop_all-ne s live)
Step-SessionInv v (quits running ready stop) live = absurd (ground (arith, v.live, stop))

-- The sessions that the threads reach once both have come to their loops, with the files that were
-- queued, from a server that allows `most` child threads at a time and is not stopped yet.
pub data Reach (most : ℕ) : List Bytes → Session → Type 0 where
  begins :
      (s : Session)
      → s.started ≡ []
      → s.process_sem + s.children ≡ most
      → s.unread ≤ s.children
      → s.global_stop ≡ false
      → Reach most [] (begin_result (begin_transmit s))
  steps :
      {files new : List Bytes} {s t : Session}
      → Reach most files s
      → Step new s t
      → Reach most (files ++ new) t

-- The invariant holds until the server is stopped.
pub Reach-SessionInv :
    {most : ℕ} {files : List Bytes} {s : Session}
    → Reach most files s
    → s.global_stop ≡ false
    → SessionInv most files s
Reach-SessionInv (begins s e p reads runs) live = rw p at (begin-SessionInv s e reads runs)
Reach-SessionInv (steps r step) live =
    Step-SessionInv (Reach-SessionInv r ((Step-Holding step).1 live)) step live

-- However the threads of a session interleave once both have come to their loops, as long as the
-- server is not stopped, and when `pthread_create` makes a thread or returns -1: when the result thread
-- has ended behind a client that is gone, a child thread was started for every queued file, in the
-- order of the queue; and when it has left its loop as a thread could not be created, one was started
-- for every file in front of the one that it took last.
pub over-started :
    {most : ℕ} {files : List Bytes} {s : Session}
    → Reach most files s
    → s.global_stop ≡ false
    → ((s.stage ≡ over) → (s.started ≡ files))
      × ((s.stage ≡ failed)
          → (file : Bytes) × (later : List Bytes) × (s.started ++ file ∷ later ≡ files))
over-started {files = files} {s = s} r live =
    let ph = (Reach-SessionInv r live).phase in
    (
      λ at. (subst (λ (x : Stage). Phase x files s) at ph).2,
      λ at. let (f, q, fq, fs, ord) = subst (λ (x : Stage). Phase x files s) at ph in (f, q, ord),
    )

begin-places :
    (s : Session)
    → (begin_result (begin_transmit s)).process_sem + (begin_result (begin_transmit s)).children
      ≡ s.process_sem + s.children
unfolding begin_result begin_transmit
begin-places s = elim (Bool-cases s.global_stop) [
  | inl stop ↦ rw stop refl
  | inr runs ↦ rw runs refl
]

Reach-places :
    {most : ℕ} {files : List Bytes} {s : Session}
    → Reach most files s
    → s.process_sem + s.children ≤ most
Reach-places (begins s e p reads runs) = omega (arith, begin-places s, p)
Reach-places (steps r step) = omega (arith, Reach-places r, (Step-Holding step).0)

-- However the threads of a session interleave once both have come to their loops, and whether or not
-- the server is stopped meanwhile, no more child threads run at a time than the server allows.
pub children-le :
    {most : ℕ} {files : List Bytes} {s : Session} → Reach most files s → s.children ≤ most
children-le r = omega (arith, Reach-places r)
