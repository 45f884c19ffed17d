-- ===== src/MsgDistributor/Channels/Order.antt =====
-- On a connection that stays open, messages are received in the order in which they arrive.
use painting_cps.Prelude.{
  ◌≡◌, ◌≢◌, ◌⊎◌, refl, sym, ap, ◌∙◌, inl, inr, ℤ, pos, beq_ℤ, beq_ℤ_iff, int_eq, List, [], ◌∷◌,
  ◌++◌, none, some, take, length, ◌≤◌, arith, append_assoc, append-nil, if◌then◌else◌, Bool-cases,
  true, false,
}
use painting_cps.Prelude.Assoc.{key_cases}
use painting_cps.CText.{Bytes}
use painting_cps.MsgDistributor.Channels.{
  Channels, Action, hears, connects, accepts, receives, closes, creates, answers, brings, hangs_up,
  Step, hears_create, hears_answer, hears_content, drops_content, hears_close, ignores_close,
  takes_answer, takes_invitation, takes_content, refuses_receive, closes_open, refuses_close,
}

abbrev pub History : Type 0
History = List (Action × (ℤ × Bytes))

pub data Steps : Channels → History → Channels → Type 0 where
  rests : (c : Channels) → Steps c [] c
  acts :
      (c d e : Channels) (a : Action) (r : ℤ × Bytes) (h : History)
      → Step c a r d
      → Steps d h e
      → Steps c ((a, r) ∷ h) e

-- The contents that the peer sent to a connection.
abbrev pub arrived : ℤ → History → List Bytes
arrived id [] = []
arrived id ((hears (brings i content), r) ∷ h) =
    let rest = arrived id h in if beq_ℤ (pos i) id then content ∷ rest else rest
arrived id ((hears creates, r) ∷ h) = arrived id h
arrived id ((hears (answers i), r) ∷ h) = arrived id h
arrived id ((hears (hangs_up i), r) ∷ h) = arrived id h
arrived id ((connects, r) ∷ h) = arrived id h
arrived id ((accepts, r) ∷ h) = arrived id h
arrived id ((receives i size, r) ∷ h) = arrived id h
arrived id ((closes i, r) ∷ h) = arrived id h

-- Nothing of the history closes the connection or opens it anew.
abbrev pub Untouched : ℤ → History → Type 0
Untouched id [] = Unit
Untouched id ((hears creates, r) ∷ h) = Untouched id h
Untouched id ((hears (answers i), r) ∷ h) = Untouched id h
Untouched id ((hears (brings i content), r) ∷ h) = Untouched id h
Untouched id ((hears (hangs_up i), r) ∷ h) = (pos i ≢ id) × Untouched id h
Untouched id ((connects, (i, bytes)) ∷ h) = (i ≢ id) × Untouched id h
Untouched id ((accepts, (i, bytes)) ∷ h) = (i ≢ id) × Untouched id h
Untouched id ((receives i size, r) ∷ h) = Untouched id h
Untouched id ((closes i, r) ∷ h) = (pos i ≢ id) × Untouched id h

-- The contents that the receivers of a connection got, each cut to what its receiver asked for.
abbrev pub Taken : ℤ → History → List Bytes → Type 0
Taken id [] taken = taken ≡ []
Taken id ((receives i size, (r, bytes)) ∷ h) taken =
    ((i ≢ id) × Taken id h taken)
    ⊎ ((i ≡ id)
        × ((content : Bytes) × (rest : List Bytes) × (taken ≡ content ∷ rest)
            × (size ≤ length content)
            × (bytes ≡ take size content)
            × Taken id h rest))
Taken id ((hears m, r) ∷ h) taken = Taken id h taken
Taken id ((connects, r) ∷ h) taken = Taken id h taken
Taken id ((accepts, r) ∷ h) taken = Taken id h taken
Taken id ((closes i, r) ∷ h) taken = Taken id h taken

same_queue :
    (c : Channels) (i id : ℤ) (p q : List Bytes)
    → beq_ℤ i id ≡ true
    → c.queue_of i ≡ some p
    → c.queue_of id ≡ some q
    → p ≡ q
same_queue c i id p q same e f = ground (arith, ap c.queue_of ((beq_ℤ_iff i id).0 same))

other_id : (i id : ℤ) → i ≢ id → beq_ℤ i id ≡ false
other_id i id h = ground (arith, (beq_ℤ_iff i id).0)

none_ne :
    (c : Channels) (i id : ℤ) (q : List Bytes)
    → c.queue_of i ≡ none
    → c.queue_of id ≡ some q
    → i ≢ id
none_ne c i id q g e same = ground (arith, ap c.queue_of same)

--
pub Taken-arrived :
    {c e : Channels} {h : History} (id : ℤ) (q : List Bytes)
    → Steps c h e
    → c.queue_of id ≡ some q
    → Untouched id h
    → (taken : List Bytes) × (left : List Bytes) × (e.queue_of id ≡ some left)
      × Taken id h taken
      × (taken ++ left ≡ q ++ arrived id h)
Taken-arrived id q (rests c) e u = ([], q, e, refl, sym (append-nil q))
Taken-arrived id q (acts c d f a r h hears_create rest) e u = Taken-arrived id q rest e u
Taken-arrived id q (acts c d f a r h (hears_answer i) rest) e u = Taken-arrived id q rest e u
Taken-arrived id q (acts c d f a r h (hears_content i content p g) rest) e u =
    elim (Bool-cases (beq_ℤ (pos i) id)) [
      | inl same ↦
          let (taken, left, final, took, order) =
            Taken-arrived id (q ++ content ∷ []) rest
              (rw (same, same_queue c (pos i) id p q same g e) refl) u in
          (taken, left, final, took, rw same (order ∙ append_assoc q (content ∷ []) (arrived id h)))
      | inr other ↦
          let (taken, left, final, took, order) = Taken-arrived id q rest (rw other e) u in
          (taken, left, final, took, rw other order)
    ]
Taken-arrived id q (acts c d f a r h (drops_content i content g) rest) e u =
    let (taken, left, final, took, order) = Taken-arrived id q rest e u in
    (taken, left, final, took, rw (other_id (pos i) id (none_ne c (pos i) id q g e)) order)
Taken-arrived id q (acts c d f a r h (hears_close i p g) rest) e (ne, u) =
    Taken-arrived id q rest (rw (other_id (pos i) id ne) e) u
Taken-arrived id q (acts c d f a r h (ignores_close i g) rest) e (ne, u) =
    Taken-arrived id q rest e u
Taken-arrived id q (acts c d f a r h (takes_answer i ids g) rest) e (ne, u) =
    Taken-arrived id q rest (rw (other_id i id ne) e) u
Taken-arrived id q (acts c d f a r h (takes_invitation i n g unused) rest) e (ne, u) =
    Taken-arrived id q rest (rw (other_id (pos i) id ne) e) u
Taken-arrived id q (acts c d f a r h (takes_content i size content others g room) rest) e u =
    elim (key_cases i id) [
      | inl same ↦
          let test : beq_ℤ i id ≡ true = (beq_ℤ_iff i id).1 same in
          let (taken, left, final, took, order) = Taken-arrived id others rest (rw test refl) u in
          (
            content ∷ taken,
            left,
            final,
            inr (same, (content, taken, refl, room, refl, took)),
            rw (← same_queue c i id (content ∷ others) q test g e)
                (ap (λ (t : List Bytes). content ∷ t) order),
          )
      | inr other ↦
          let (taken, left, final, took, order) =
            Taken-arrived id q rest (rw (other_id i id other) e) u in
          (taken, left, final, inl (other, took), order)
    ]
Taken-arrived id q (acts c d f a r h (refuses_receive i size g) rest) e u =
    let (taken, left, final, took, order) = Taken-arrived id q rest e u in
    (taken, left, final, inl (none_ne c i id q g e, took), order)
Taken-arrived id q (acts c d f a r h (closes_open i n p g sent) rest) e (ne, u) =
    Taken-arrived id q rest (rw (other_id (pos i) id ne) e) u
Taken-arrived id q (acts c d f a r h (refuses_close i g) rest) e (ne, u) =
    Taken-arrived id q rest e u
