-- ===== src/Sessions/Turns.antt =====
-- What the steps of the result thread leave: the phase, the places and the children.
use painting_cps.Prelude.{
  ℕ, zero, suc, ◌+◌, ◌≤◌, ◌≡◌, refl, sym, subst, ◌∙◌, ◌⊎◌, List, [], ◌∷◌, ◌++◌, Bool, true, false,
  none, some, arith, append_assoc, append-nil,
}
use painting_cps.Exec.{done}
use painting_cps.CText.{Bytes}
use painting_cps.Sessions.{Session, idle, claiming, over, take_turn, launch, failed}
use painting_cps.Sessions.Phases.{Phase, Quiet, lost, done-inj}

module _ (files : List Bytes) (s : Session) where
  -- The result thread ends only when the transmit thread has, with nothing left in the queue.
  pub take_turn-Phase :
      (t : Session)
      → Phase idle files s
      → (s.stopped ≡ false) ⊎ (s.posting ≡ false)
      → take_turn s ≡ done tt t
      → Phase t.stage files t
        × Quiet s t
        × (lost t.stage ≡ 0)
        × ((t.stopped ≡ false) ⊎ (t.posting ≡ false))
  unfolding take_turn
  take_turn-Phase t ([], zero, fq, fs, bal, ord) one e = absurd (ground (arith, fq, fs, e))
  take_turn-Phase t (f ∷ q, zero, fq, fs, bal, ord) one e = absurd (ground (arith, fq, fs, e))
  take_turn-Phase t ([], suc n, fq, fs, bal, ord) one e =
      let u = record s { img_queue = none; sem_match = none; logins = none; stage = over } in
      let same : u ≡ t = done-inj (rw (fs, fq) at e) in
      let ended : (s.stopped ≡ true) × (s.posting ≡ false) = ground (arith, bal, one) in
      subst
        (λ (w : Session).
          Phase w.stage files w
          × Quiet s w
          × (lost w.stage ≡ 0)
          × ((w.stopped ≡ false) ⊎ (w.posting ≡ false)))
        same
        ((ended.0, ended.1, sym (append-nil s.started) ∙ ord), (refl, refl, refl, refl), refl, one)
  take_turn-Phase t (f ∷ q, suc n, fq, fs, bal, ord) one e =
      let u = record s { sem_match = some n; stage = claiming } in
      let same : u ≡ t = done-inj (rw (fs, fq) at e) in
      subst
        (λ (w : Session).
          Phase w.stage files w
          × Quiet s w
          × (lost w.stage ≡ 0)
          × ((w.stopped ≡ false) ⊎ (w.posting ≡ false)))
        same
        (
          (f ∷ q, n, fq, refl, omega (arith, bal), ord, omega arith),
          (refl, refl, refl, refl),
          refl,
          one,
        )

  -- What a thread that is started, or cannot be, leaves.
  abbrev Launched : Session → Type 0
  Launched t =
      Phase t.stage files t
      × (t.process_sem + t.children + lost t.stage ≡ s.process_sem + s.children)
      × (t.unread + s.children ≤ s.unread + t.children)
      × (t.global_stop ≡ false)
      × ((t.stopped ≡ false) ⊎ (t.posting ≡ false))

  pub launch-Phase :
      (created : Bool) (m : ℕ) (t : Session)
      → s.process_sem ≡ m
      → s.global_stop ≡ false
      → Phase claiming files s
      → (s.stopped ≡ false) ⊎ (s.posting ≡ false)
      → launch created s ≡ done tt t
      → Launched t
  unfolding launch
  launch-Phase created zero t hm live (q, n, fq, fs, bal, ord, ne) one e =
      absurd (ground (arith, hm, e))
  launch-Phase created (suc m) t hm live ([], n, fq, fs, bal, ord, ne) one e =
      absurd (omega (arith, ne))
  launch-Phase true (suc m) t hm live (f ∷ q, n, fq, fs, bal, ord, ne) one e =
      let u = record s {
        process_sem = m;
        img_queue = some q;
        children = s.children + 1;
        started = s.started ++ f ∷ [];
        stage = idle;
        global_stop = false;
        trans_info = f;
        unread = s.unread + 1;
      } in
      let same : u ≡ t = done-inj (rw (hm, fq, live) at e) in
      subst Launched same (
        (q, n, refl, fs, omega (arith, bal), append_assoc s.started (f ∷ []) q ∙ ord),
        omega (arith, hm),
        omega arith,
        refl,
        one,
      )
  launch-Phase false (suc m) t hm live (f ∷ q, n, fq, fs, bal, ord, ne) one e =
      let u = record s {
        process_sem = m;
        img_queue = some q;
        sem_match = none;
        stage = failed;
        trans_info = f;
      } in
      let same : u ≡ t = done-inj (rw (hm, fq) at e) in
      subst Launched same ((f, q, refl, refl, ord), omega (arith, hm), omega arith, live, one)
