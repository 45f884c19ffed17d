-- ===== src/MsgDistributor/Ids.antt =====
-- `accept` chooses an id that no connection has, and the search for it ends.
use native.Mathlib.Decide.{dec_lt}
use painting_cps.Prelude.{
  ℕ, zero, suc, ◌+◌, ◌≤◌, ◌<◌, ◌≡◌, ◌≢◌, refl, sym, ap, ◌∙◌, ℤ, pos, is_neg, int_eq, int_max, false,
  true, List, [], ◌∷◌, ◌++◌, none, some, arith, length, Option-cases, inl, inr,
}
use painting_cps.Prelude.Assoc.{find, insert, erase, find-erase_ne, length-erase-lt}
use painting_cps.Exec.{ok, done, waits, exits}
use painting_cps.CText.{Bytes}
use painting_cps.MsgDistributor.State.{Host, MsgDistributor}
use painting_cps.MsgDistributor.Frames.{accepted_text, command_frame}
use painting_cps.MsgDistributor.Connections.{increment, next_id, accept_response}

increment_lem : (i : ℕ) → i < int_max → increment (pos i) ≡ ok (pos (suc i))
unfolding increment
increment_lem i h = ground arith

next_id-step :
    (fuel i : ℕ) (m : List (ℤ × ℕ))
    → i < int_max
    → next_id (suc fuel) m (pos i) ≡ elim (find (pos (suc i)) m) [
      | none ↦ ok (pos (suc i))
      | some _ ↦ next_id fuel m (pos (suc i))
    ]
unfolding next_id
next_id-step fuel i m h = ground (arith, increment_lem i h)

-- The ids below the next candidate do not matter to the search.
next_id-erase :
    (fuel i j : ℕ) (m : List (ℤ × ℕ))
    → j ≤ i
    → i + fuel ≤ int_max
    → next_id fuel (erase (pos j) m) (pos i) ≡ next_id fuel m (pos i)
unfolding next_id
next_id-erase zero i j m h lim = refl
next_id-erase (suc fuel) i j m h lim = ground (
  arith,
  increment_lem i,
  find-erase_ne (pos j) (pos (suc i)) m (λ e. ground arith),
  next_id-erase fuel (suc i) j m,
)

pos_ne : (a b : ℕ) → a < b → pos a ≢ pos b
pos_ne a b h e = ground arith

still_taken :
    (i k : ℕ) (m : List (ℤ × ℕ)) (p : ℕ)
    → find (pos (suc i)) m ≡ some p
    → (suc i < k → find (pos k) m ≢ none)
    → i < k
    → find (pos k) m ≢ none
still_taken i k m p taken above low e = elim (dec_lt (suc i) k) [
  | yes h ↦ above h e
  | no h ↦ let same : k ≡ suc i = omega arith in ground (arith, ap (λ (t : ℕ). find (pos t) m) same)
]

-- An id that the search can find: the first above `i` that has no connection.
abbrev pub IsNextId : List (ℤ × ℕ) → ℕ → ℕ → Type 0
IsNextId m i j =
    (i < j) × (find (pos j) m ≡ none) × ((k : ℕ) → i < k → k < j → find (pos k) m ≢ none)

-- The search of accept for an id ends within as many rounds as there are connections and one more,
-- at the first id above the last one that no connection has, while no id overflows an int.
pub next_id-found :
    (fuel : ℕ) (m : List (ℤ × ℕ)) (i : ℕ)
    → length m < fuel
    → i + fuel ≤ int_max
    → (j : ℕ) × (next_id fuel m (pos i) ≡ ok (pos j)) × IsNextId m i j × (j ≤ i + length m + 1)
unfolding next_id
next_id-found zero m i h lim = absurd (omega arith)
next_id-found (suc fuel) m i h lim = elim (Option-cases (find (pos (suc i)) m)) [
  | inl free ↦ (
    suc i,
    ground (arith, increment_lem i),
    (omega arith, free, λ k lo hi. absurd (omega arith)),
    omega arith,
  )
  | inr (p, taken) ↦
      let smaller = length-erase-lt (pos (suc i)) m (λ e. cc) in
      let (j, found, (lo, free, between), near) =
        next_id-found fuel (erase (pos (suc i)) m) (suc i) (omega arith) (omega arith) in
      (
        j,
        ground (arith, increment_lem i, next_id-erase fuel (suc i) (suc i) m, found),
        (
          omega arith,
          sym (find-erase_ne (pos (suc i)) (pos j) m (pos_ne (suc i) j (omega arith))) ∙ free,
          λ k low high.
              still_taken i k m p taken
                (λ above e.
                  between k above high
                    (find-erase_ne (pos (suc i)) (pos k) m (pos_ne (suc i) k (omega arith)) ∙ e))
                low,
        ),
        omega arith,
      )
]

-- The id that `accept` gives out: the first free one above the last, told to the peer in an
-- `accepted` command before the connection is set up.
module _ (host : Host) (d : MsgDistributor) where
  abbrev pub accepted_state : ℤ → Bytes → ℕ → MsgDistributor
  accepted_state id header n = record d {
    accept_sem = n;
    mfsockid = id;
    sent = d.sent ++ (d.dst_guid, header) ∷ [];
    sems = d.sems ++ 0 ∷ [];
    queue_map = insert id [] d.queue_map;
    sem_map = insert id (length d.sems) d.sem_map;
    status_map = insert id 1 d.status_map;
    map_lock = false;
    send_lock = false;
    id_lock = false;
  }

  pub accept_response_lem :
      (id : ℤ) (header : Bytes) (n : ℕ)
      → d.accept_sem ≡ suc n
      → d.stop ≡ false
      → d.id_lock ≡ false
      → d.send_lock ≡ false
      → d.map_lock ≡ false
      → next_id (suc (length d.sem_map)) d.sem_map d.mfsockid ≡ ok id
      → command_frame host (accepted_text id) ≡ ok header
      → is_neg (host.mfsend d.sent d.dst_guid header) ≡ false
      → accept_response host d ≡ done id (accepted_state id header n)
  unfolding accept_response
  accept_response_lem id header n e running idf sendf mapf f g sent = ground arith

  pub accept_response-waits : d.accept_sem ≡ 0 → accept_response host d ≡ waits d
  unfolding accept_response
  accept_response-waits e = ground arith

  -- A network error ends the process; the id is used up.
  pub accept_response-fails :
      (id : ℤ) (header : Bytes) (n : ℕ)
      → d.accept_sem ≡ suc n
      → d.stop ≡ false
      → d.id_lock ≡ false
      → d.send_lock ≡ false
      → next_id (suc (length d.sem_map)) d.sem_map d.mfsockid ≡ ok id
      → command_frame host (accepted_text id) ≡ ok header
      → is_neg (host.mfsend d.sent d.dst_guid header) ≡ true
      → accept_response host d
        ≡ exits (pos 1) (record d {
          accept_sem = n;
          mfsockid = id;
          sent = d.sent ++ (d.dst_guid, header) ∷ [];
          send_lock = false;
          id_lock = false;
        })
  unfolding accept_response
  accept_response-fails id header n e running idf sendf f g failed = ground arith
