-- ===== src/MsgDistributor/Invariant/Tables.antt =====
-- The three maps and the semaphore heap: an open connection has a queue, a status of 1, and a
-- semaphore of its own that counts the queue.
use painting_cps.Prelude.{
  ℕ, ◌<◌, ◌≡◌, ◌≢◌, refl, sym, ◌∙◌, ap, ℤ, int_eq, List, [], ◌∷◌, ◌++◌, none, some, arith, length,
  get_elem?, set, get_elem?-set_self, get_elem?-set_ne, get_elem?-append_left,
  get_elem?-append_last, lt_of_get_elem?, inl, inr,
}
use painting_cps.Prelude.Assoc.{
  find, insert, erase, find-insert_self, find-insert_ne, find-erase_self, find-erase_ne, key_cases,
}
use painting_cps.CText.{Bytes}

module _ (sems : List ℕ) (sem_map : List (ℤ × ℕ)) (queue_map : List (ℤ × List Bytes))
    (status_map : List (ℤ × ℕ)) where
  pub record Maps : Type 0 where
    pub opened :
        (id : ℤ) (p : ℕ)
        → find id sem_map ≡ some p
        → (q : List Bytes) × (find id queue_map ≡ some q)
          × (get_elem? sems p ≡ some (length q))
          × (find id status_map ≡ some 1)
    pub closed : (id : ℤ) → find id sem_map ≡ none → find id queue_map ≡ none
    pub apart : (i j : ℤ) (p : ℕ) → find i sem_map ≡ some p → find j sem_map ≡ some p → i ≡ j

pub Maps-empty : Maps [] [] [] []
unfolding find
Maps-empty = record { opened = λ id p e. cc; closed = λ id e. refl; apart = λ i j p e f. cc }

module _ {sems : List ℕ} {sem_map : List (ℤ × ℕ)} {queue_map : List (ℤ × List Bytes)}
    {status_map : List (ℤ × ℕ)} (v : Maps sems sem_map queue_map status_map) where
  -- A queue that changes together with its semaphore.
  pub Maps-requeue :
      (id : ℤ) (p : ℕ) (q : List Bytes)
      → find id sem_map ≡ some p
      → Maps (set sems p (length q)) sem_map (insert id q queue_map) status_map
  Maps-requeue id p q e = record {
    opened = λ j r f.
        let (old, fq, fs, ft) = v.opened j r f in
        elim (key_cases id j) [
          | inl same ↦ (
            q,
            rw same (find-insert_self j q queue_map),
            ground (
              arith,
              get_elem?-set_self sems p (length q),
              lt_of_get_elem? sems r fs,
              ap (λ k. find k sem_map) same,
            ),
            ft,
          )
          | inr other ↦ (
            old,
            find-insert_ne id j q queue_map other ∙ fq,
            get_elem?-set_ne sems (length q) (λ (s : p ≡ r). other (v.apart id j p e (rw s f)))
                ∙ fs,
            ft,
          )
        ];
    closed = λ j f.
        find-insert_ne id j q queue_map (λ same. ground (arith, ap (λ k. find k sem_map) same))
        ∙ v.closed j f;
    apart = v.apart;
  }

  -- A connection that goes: the semaphore that waiters may hold is only posted.
  pub Maps-close :
      (id : ℤ) (p n : ℕ)
      → find id sem_map ≡ some p
      → Maps (set sems p n) (erase id sem_map) (erase id queue_map) (insert id 0 status_map)
  Maps-close id p n e = record {
    opened = λ j r f.
        let other = left id j r f in
        let g = sym (find-erase_ne id j sem_map other) ∙ f in
        let (old, fq, fs, ft) = v.opened j r g in
        (
          old,
          find-erase_ne id j queue_map other ∙ fq,
          get_elem?-set_ne sems n (λ (s : p ≡ r). other (v.apart id j p e (rw s g))) ∙ fs,
          find-insert_ne id j 0 status_map other ∙ ft,
        );
    closed = λ j f. elim (key_cases id j) [
      | inl same ↦ rw same (find-erase_self j queue_map)
      | inr other ↦
          find-erase_ne id j queue_map other
          ∙ v.closed j (sym (find-erase_ne id j sem_map other) ∙ f)
    ];
    apart = λ i j r f g.
        v.apart i j r (sym (find-erase_ne id i sem_map (left id i r f)) ∙ f)
          (sym (find-erase_ne id j sem_map (left id j r g)) ∙ g);
  }
    where
      left : (id j : ℤ) (r : ℕ) → find j (erase id sem_map) ≡ some r → id ≢ j
      left id j r f same =
          ground (arith, find-erase_self id sem_map, ap (λ k. find k (erase id sem_map)) same)

  -- A new connection, or one that takes the id of an older one.
  pub Maps-register :
      (id : ℤ)
      → Maps
          (sems ++ 0 ∷ [])
          (insert id (length sems) sem_map)
          (insert id [] queue_map)
          (insert id 1 status_map)
  Maps-register id = record {
    opened = λ j r f. elim (key_cases id j) [
      | inl same ↦ (
        [],
        rw same (find-insert_self j [] queue_map),
        ground (
          arith,
          get_elem?-append_last sems 0,
          find-insert_self id (length sems) sem_map,
          ap (λ k. find k (insert id (length sems) sem_map)) same,
        ),
        rw same (find-insert_self j 1 status_map),
      )
      | inr other ↦
          let g = sym (find-insert_ne id j (length sems) sem_map other) ∙ f in
          let (old, fq, fs, ft) = v.opened j r g in
          (
            old,
            find-insert_ne id j [] queue_map other ∙ fq,
            get_elem?-append_left sems (0 ∷ []) r (lt_of_get_elem? sems r fs) ∙ fs,
            find-insert_ne id j 1 status_map other ∙ ft,
          )
    ];
    closed = λ j f.
        let other = absent j f in
        find-insert_ne id j [] queue_map other
        ∙ v.closed j (sym (find-insert_ne id j (length sems) sem_map other) ∙ f);
    apart = λ i j r f g. elim (key_cases id i) [
      | inl same ↦ elim (key_cases id j) [
        | inl same' ↦ sym same ∙ same'
        | inr other ↦ absurd (omega (arith, own i r same f, older j r other g))
      ]
      | inr other ↦ elim (key_cases id j) [
        | inl same ↦ absurd (omega (arith, own j r same g, older i r other f))
        | inr other' ↦
            v.apart i j r (sym (find-insert_ne id i (length sems) sem_map other) ∙ f)
              (sym (find-insert_ne id j (length sems) sem_map other') ∙ g)
      ]
    ];
  }
    where
      absent : (j : ℤ) → find j (insert id (length sems) sem_map) ≡ none → id ≢ j
      absent j f same = ground (
        arith,
        find-insert_self id (length sems) sem_map,
        ap (λ k. find k (insert id (length sems) sem_map)) same,
      )

      own :
          (j : ℤ) (r : ℕ)
          → id ≡ j
          → find j (insert id (length sems) sem_map) ≡ some r
          → r ≡ length sems
      own j r same f = ground (
        arith,
        find-insert_self id (length sems) sem_map,
        ap (λ k. find k (insert id (length sems) sem_map)) same,
      )

      older :
          (j : ℤ) (r : ℕ)
          → id ≢ j
          → find j (insert id (length sems) sem_map) ≡ some r
          → r < length sems
      older j r other f =
          lt_of_get_elem? sems r
            (v.opened j r (sym (find-insert_ne id j (length sems) sem_map other) ∙ f)).2

  -- A semaphore that belongs to no connection may change, and so may a closed one's status.
  pub Maps-stray :
      (id : ℤ) (p n : ℕ)
      → ((j : ℤ) → find j sem_map ≢ some p)
      → find id sem_map ≡ none
      → Maps (set sems p n) sem_map queue_map (erase id status_map)
  Maps-stray id p n stray gone = record {
    opened = λ j r f.
        let (old, fq, fs, ft) = v.opened j r f in
        (
          old,
          fq,
          get_elem?-set_ne sems n (λ (s : p ≡ r). stray j (rw s f)) ∙ fs,
          find-erase_ne id j status_map (λ same. ground (arith, ap (λ k. find k sem_map) same))
              ∙ ft,
        );
    closed = v.closed;
    apart = v.apart;
  }
