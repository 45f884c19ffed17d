-- ===== src/Sessions/Phases.antt =====
-- The steps of a session's threads, and what each of them keeps.
use painting_cps.Prelude.{
  ℕ, suc, ◌+◌, ◌≤◌, ◌<◌, ◌≡◌, refl, ap, sym, ◌∙◌, ◌⊎◌, inl, List, [], ◌∷◌, ◌++◌, Bool, true, false,
  none, some, arith, length, length-append, append_assoc, append-nil,
}
use painting_cps.Exec.{Outcome, done}
use painting_cps.CText.{Bytes}
use painting_cps.Sessions.{
  Session, Stage, idle, claiming, over, begin_transmit, begin_result, enqueue, signal, hang_up,
  take_turn, launch, begin_child, end_child, stop_all, quit, halted, failed,
}

abbrev pub bit : Bool → ℕ
bit true = 1
bit false = 0

-- The steps of the threads.
pub data Step : List Bytes → Session → Session → Type 0 where
  enqueues :
      {s t : Session} (f : Bytes)
      → s.stopped ≡ false
      → s.posting ≡ false
      → enqueue f s ≡ done tt t
      → Step (f ∷ []) s t
  signals : {s t : Session} → s.posting ≡ true → signal s ≡ done tt t → Step [] s t
  hangs_up :
      {s t : Session} → s.stopped ≡ false → s.posting ≡ false → hang_up s ≡ done tt t → Step [] s t
  takes_turn : {s t : Session} → s.stage ≡ idle → take_turn s ≡ done tt t → Step [] s t
  launches :
      {s t : Session} (created : Bool)
      → s.stage ≡ claiming
      → launch created s ≡ done tt t
      → Step [] s t
  begins_child : {s : Session} → 1 ≤ s.unread → Step [] s (begin_child s)
  ends_child : {s : Session} → s.unread < s.children → Step [] s (end_child s)
  stops : {s : Session} → Step [] s (stop_all s)
  quits :
      {s : Session}
      → s.stopped ≡ false
      → s.posting ≡ false
      → s.global_stop ≡ true
      → Step [] s (quit s)

-- The queue and the semaphore agree, and the started files are followed by the queued ones.
abbrev pub Phase : Stage → List Bytes → Session → Type 0
Phase idle files s =
    (q : List Bytes) × (n : ℕ) × (s.img_queue ≡ some q)
    × (s.sem_match ≡ some n)
    × (n + bit s.posting ≡ length q + bit s.stopped)
    × (s.started ++ q ≡ files)
Phase claiming files s =
    (q : List Bytes) × (n : ℕ) × (s.img_queue ≡ some q)
    × (s.sem_match ≡ some n)
    × (n + 1 + bit s.posting ≡ length q + bit s.stopped)
    × (s.started ++ q ≡ files)
    × (1 ≤ length q)
Phase over files s = (s.stopped ≡ true) × (s.posting ≡ false) × (s.started ≡ files)
Phase halted files s = ⊥
Phase failed files s =
    (f : Bytes) × (q : List Bytes) × (s.img_queue ≡ some q)
    × (s.sem_match ≡ none)
    × (s.started ++ f ∷ q ≡ files)

-- The place that a thread took that could not be created.
abbrev pub lost : Stage → ℕ
lost idle = 0
lost claiming = 0
lost over = 0
lost halted = 0
lost failed = 1

-- What only `launch` and the children change.
abbrev pub Quiet : Session → Session → Type 0
Quiet s u =
    (u.process_sem + u.children ≡ s.process_sem + s.children)
    × (u.unread ≡ s.unread)
    × (u.children ≡ s.children)
    × (u.global_stop ≡ s.global_stop)

pub record SessionInv (most : ℕ) (files : List Bytes) (s : Session) : Type 0 where
  pub phase : Phase s.stage files s
  pub places : s.process_sem + s.children + lost s.stage ≡ most
  pub reading : s.unread ≤ s.children
  pub live : s.global_stop ≡ false
  pub one_end : (s.stopped ≡ false) ⊎ (s.posting ≡ false)

pub begin-SessionInv :
    (s : Session)
    → s.started ≡ []
    → s.unread ≤ s.children
    → s.global_stop ≡ false
    → SessionInv (s.process_sem + s.children) [] (begin_result (begin_transmit s))
unfolding begin_result begin_transmit
begin-SessionInv s e reads live = rw live (record {
  phase = ([], 0, refl, refl, refl, append-nil s.started ∙ e);
  places = omega arith;
  reading = reads;
  one_end = inl refl;
  live = refl;
})

snoc_length : (q : List Bytes) (f : Bytes) → length (q ++ f ∷ []) ≡ length q + 1
snoc_length q f = length-append q (f ∷ [])

pub done-inj :
    {s t : Session} → ◌≡◌ {A = Outcome Session (Unit {0})} (done tt s) (done tt t) → s ≡ t
done-inj e = ground (arith, e)

-- What a step leaves: the phase, and the fields that only `launch` and `end_child` change.
module _ (files : List Bytes) (s : Session) where
  pub enqueue-Phase :
      (st : Stage) (f : Bytes)
      → Phase st files s
      → s.stopped ≡ false
      → s.posting ≡ false
      → (u : Session) × (enqueue f s ≡ done tt u)
        × Phase st (files ++ f ∷ []) u
        × (u.stage ≡ s.stage)
        × Quiet s u
        × (u.stopped ≡ s.stopped)
  unfolding enqueue
  enqueue-Phase idle f (q, n, fq, fs, bal, ord) running ready = (
    record s { img_queue = some (q ++ f ∷ []); posting = true },
    rw fq refl,
    (
      q ++ f ∷ [],
      n,
      refl,
      fs,
      omega (arith, bal, snoc_length q f, ap bit running, ap bit ready),
      sym (append_assoc s.started q (f ∷ [])) ∙ ap (λ (l : List Bytes). l ++ f ∷ []) ord,
    ),
    refl,
    (refl, refl, refl, refl),
    refl,
  )
  enqueue-Phase claiming f (q, n, fq, fs, bal, ord, ne) running ready = (
    record s { img_queue = some (q ++ f ∷ []); posting = true },
    rw fq refl,
    (
      q ++ f ∷ [],
      n,
      refl,
      fs,
      omega (arith, bal, snoc_length q f, ap bit running, ap bit ready),
      sym (append_assoc s.started q (f ∷ [])) ∙ ap (λ (l : List Bytes). l ++ f ∷ []) ord,
      omega (arith, snoc_length q f),
    ),
    refl,
    (refl, refl, refl, refl),
    refl,
  )
  enqueue-Phase over f (ended, quiet, ord) running ready = absurd (ground (arith, ended, running))
  enqueue-Phase halted f h running ready = absurd h
  enqueue-Phase failed f (g, q, fq, fs, ord) running ready = (
    record s { img_queue = some (q ++ f ∷ []); posting = true },
    rw fq refl,
    (
      g,
      q ++ f ∷ [],
      refl,
      fs,
      sym (append_assoc s.started (g ∷ q) (f ∷ [])) ∙ ap (λ (l : List Bytes). l ++ f ∷ []) ord,
    ),
    refl,
    (refl, refl, refl, refl),
    refl,
  )

  pub signal-Phase :
      (st : Stage) (t : Session)
      → Phase st files s
      → s.posting ≡ true
      → signal s ≡ done tt t
      → (u : Session) × (signal s ≡ done tt u)
        × Phase st files u
        × (u.stage ≡ s.stage)
        × Quiet s u
        × (u.posting ≡ false)
  unfolding signal
  signal-Phase idle t (q, n, fq, fs, bal, ord) posts e = (
    record s { sem_match = some (suc n); known = true; posting = false },
    rw fs refl,
    (q, suc n, fq, refl, omega (arith, bal, ap bit posts), ord),
    refl,
    (refl, refl, refl, refl),
    refl,
  )
  signal-Phase claiming t (q, n, fq, fs, bal, ord, ne) posts e = (
    record s { sem_match = some (suc n); known = true; posting = false },
    rw fs refl,
    (q, suc n, fq, refl, omega (arith, bal, ap bit posts), ord, ne),
    refl,
    (refl, refl, refl, refl),
    refl,
  )
  signal-Phase over t (ended, quiet, ord) posts e = absurd (ground (arith, quiet, posts))
  signal-Phase halted t h posts e = absurd h
  signal-Phase failed t (g, q, fq, fs, ord) posts e = absurd (ground (arith, fs, e))

  pub hang_up-Phase :
      (st : Stage) (t : Session)
      → Phase st files s
      → s.stopped ≡ false
      → hang_up s ≡ done tt t
      → (u : Session) × (hang_up s ≡ done tt u)
        × Phase st files u
        × (u.stage ≡ s.stage)
        × Quiet s u
        × (u.posting ≡ s.posting)
  unfolding hang_up
  hang_up-Phase idle t (q, n, fq, fs, bal, ord) running e = (
    record s { sem_match = some (suc n); stopped = true },
    ground (arith, fs, e),
    (q, suc n, fq, refl, omega (arith, bal, ap bit running), ord),
    refl,
    (refl, refl, refl, refl),
    refl,
  )
  hang_up-Phase claiming t (q, n, fq, fs, bal, ord, ne) running e = (
    record s { sem_match = some (suc n); stopped = true },
    ground (arith, fs, e),
    (q, suc n, fq, refl, omega (arith, bal, ap bit running), ord, ne),
    refl,
    (refl, refl, refl, refl),
    refl,
  )
  hang_up-Phase over t (ended, quiet, ord) running e = absurd (ground (arith, ended, running))
  hang_up-Phase halted t h running e = absurd h
  hang_up-Phase failed t (g, q, fq, fs, ord) running e = absurd (ground (arith, fs, e))
