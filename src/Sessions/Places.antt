-- ===== src/Sessions/Places.antt =====
-- What every step of a session keeps, whether or not the server is stopped.
use painting_cps.Prelude.{
  ℕ, zero, suc, ◌+◌, ◌≤◌, ◌≡◌, refl, subst, List, [], ◌∷◌, Bool, true, false, Option, none, some,
  arith,
}
use painting_cps.Exec.{done}
use painting_cps.CText.{Bytes}
use painting_cps.Sessions.{
  Session, enqueue, signal, hang_up, take_turn, launch, begin_child, end_child, stop_all, quit,
}
use painting_cps.Sessions.Phases.{
  Step, enqueues, signals, hangs_up, takes_turn, launches, begins_child, ends_child, stops, quits,
  done-inj,
}

-- A step takes no place that was not free, and does not take back a stop.
abbrev pub Holding : Session → Session → Type 0
Holding s t =
    (t.process_sem + t.children ≤ s.process_sem + s.children)
    × (t.global_stop ≡ false → s.global_stop ≡ false)

module _ (s t : Session) where
  still :
      (u : Session)
      → u ≡ t
      → (u.process_sem + u.children ≤ s.process_sem + s.children)
      → u.global_stop ≡ s.global_stop
      → Holding s t
  still u same places stop =
      subst (λ (w : Session). Holding s w) same (places, λ live. ground (arith, live, stop))

  enqueue-Holding :
      (f : Bytes) (q : Option (List Bytes))
      → s.img_queue ≡ q
      → enqueue f s ≡ done tt t
      → Holding s t
  unfolding enqueue
  enqueue-Holding f none e g = absurd (ground (arith, e, g))
  enqueue-Holding f (some q) e g = still _ (done-inj (rw e at g)) (omega arith) refl

  signal-Holding : (n : Option ℕ) → s.sem_match ≡ n → signal s ≡ done tt t → Holding s t
  unfolding signal
  signal-Holding none e g = absurd (ground (arith, e, g))
  signal-Holding (some n) e g = still _ (done-inj (rw e at g)) (omega arith) refl

  hang_up-Holding :
      (k : Bool) (n : Option ℕ)
      → s.known ≡ k
      → s.sem_match ≡ n
      → hang_up s ≡ done tt t
      → Holding s t
  unfolding hang_up
  hang_up-Holding false n h e g = absurd (ground (arith, h, g))
  hang_up-Holding true none h e g = absurd (ground (arith, h, e, g))
  hang_up-Holding true (some n) h e g = still _ (done-inj (rw (h, e) at g)) (omega arith) refl

  take_turn-Holding :
      (n : Option ℕ) (q : Option (List Bytes))
      → s.sem_match ≡ n
      → s.img_queue ≡ q
      → take_turn s ≡ done tt t
      → Holding s t
  unfolding take_turn
  take_turn-Holding none q e h g = absurd (ground (arith, e, g))
  take_turn-Holding (some zero) q e h g = absurd (ground (arith, e, g))
  take_turn-Holding (some (suc n)) none e h g = absurd (ground (arith, e, h, g))
  take_turn-Holding (some (suc n)) (some []) e h g =
      still _ (done-inj (rw (e, h) at g)) (omega arith) refl
  take_turn-Holding (some (suc n)) (some (f ∷ q)) e h g =
      still _ (done-inj (rw (e, h) at g)) (omega arith) refl

  launch-Holding :
      (created stop : Bool) (m : ℕ) (q : Option (List Bytes))
      → s.global_stop ≡ stop
      → s.process_sem ≡ m
      → s.img_queue ≡ q
      → launch created s ≡ done tt t
      → Holding s t
  unfolding launch
  launch-Holding created stop zero q a e h g = absurd (ground (arith, e, g))
  launch-Holding created stop (suc m) none a e h g = absurd (ground (arith, e, h, g))
  launch-Holding created stop (suc m) (some []) a e h g = absurd (ground (arith, e, h, g))
  launch-Holding false stop (suc m) (some (f ∷ q)) a e h g =
      still _ (done-inj (rw (e, h) at g)) (omega (arith, e)) refl
  launch-Holding true true (suc m) (some (f ∷ q)) a e h g =
      still _ (done-inj (rw (e, h, a) at g)) (omega (arith, e)) (ground (arith, a))
  launch-Holding true false (suc m) (some (f ∷ q)) a e h g =
      still _ (done-inj (rw (e, h, a) at g)) (omega (arith, e)) (ground (arith, a))

pub Step-Holding : {new : List Bytes} {s t : Session} → Step new s t → Holding s t
Step-Holding {s = s} {t = t} (enqueues f running ready e) = enqueue-Holding s t f s.img_queue refl e
Step-Holding {s = s} {t = t} (signals posts e) = signal-Holding s t s.sem_match refl e
Step-Holding {s = s} {t = t} (hangs_up running ready e) =
    hang_up-Holding s t s.known s.sem_match refl refl e
Step-Holding {s = s} {t = t} (takes_turn at e) =
    take_turn-Holding s t s.sem_match s.img_queue refl refl e
Step-Holding {s = s} {t = t} (launches created at e) =
    launch-Holding s t created s.global_stop s.process_sem s.img_queue refl refl refl e
Step-Holding (begins_child some_child) = unfold begin_child in (omega arith, λ live. live)
Step-Holding (ends_child some_child) = unfold end_child in (omega (arith, some_child), λ live. live)
Step-Holding stops = unfold stop_all in (omega arith, λ live. absurd (ground (arith, live)))
Step-Holding (quits running ready stopped) = unfold quit in (omega arith, λ live. live)
