-- ===== src/MsgDistributor/Invariant.antt =====
-- What holds of the object between two steps of the threads. No step breaks it, and none pops an
-- empty queue or follows a pointer that is not there.
pub mod Tables
use painting_cps.Prelude.{
  ℕ, zero, suc, ◌+◌, ◌≡◌, ◌≢◌, refl, ◌⊎◌, inl, inr, ℤ, pos, minus_one, beq_ℤ, int_eq, Bool, true,
  false, List, [], ◌∷◌, ◌++◌, Option, none, some, arith, length, length-append, get_elem?, set,
  Option-cases, Bool-cases, sym, ◌∙◌,
}
use painting_cps.Prelude.Assoc.{find}
use painting_cps.Exec.{Outcome, done, exits, waits, faults}
use painting_cps.CText.{Bytes}
use painting_cps.MsgDistributor.State.{Host, MsgDistributor, new}
use painting_cps.MsgDistributor.Methods.{init, unopened, register, deliver, close}
use painting_cps.MsgDistributor.Connections.{connect_response}
use painting_cps.MsgDistributor.Transfer.{status_of, recv_response}
use painting_cps.MsgDistributor.Effects.{
  deliver-unknown, deliver-known, close-unknown, close-passive, connect_response_lem,
  connect_response-waits, recv_response-waits, recv_response-closed, recv_response-message,
  closed_state,
}
use Tables.{Maps, Maps-empty, Maps-requeue, Maps-close, Maps-register, Maps-stray}

pub record Inv (d : MsgDistributor) : Type 0 where
  pub maps : Maps d.sems d.sem_map d.queue_map d.status_map
  -- an id in the queue for each post that `connect` may take
  pub answered : d.connect_sem ≡ length d.connect_queue
  -- these locks are held within a step only, and nothing sets `stop`
  pub map_free : d.map_lock ≡ false
  pub send_free : d.send_lock ≡ false
  pub running : d.stop ≡ false

-- The call does not fault, and leaves the invariant whether it returns, exits or waits.
abbrev pub Keeps : {A : Type 0} → Outcome MsgDistributor A → Type 0
Keeps (done a d) = Inv d
Keeps (exits n d) = Inv d
Keeps (waits d) = Inv d
Keeps (faults e) = ⊥

-- Whatever the memory of a new object held, when the calls of init succeed it returns 0 and leaves an
-- initialised object with the two GUIDs under the invariant, and a second init is refused and changes
-- nothing.
pub init-new :
    (raw : MsgDistributor) (src dst : ℤ)
    → (d : MsgDistributor) × (init (pos 0) true true src dst (new raw) ≡ done (pos 0) d)
      × Inv d
      × (unopened d ≡ false)
      × (d.src_guid ≡ src)
      × (d.dst_guid ≡ dst)
      × ((mfopen src₂ dst₂ : ℤ) (mutexes_ok sems_ok : Bool)
          → init mfopen mutexes_ok sems_ok src₂ dst₂ d ≡ done minus_one d)
unfolding init new
init-new raw src dst = (
  _,
  refl,
  record { maps = Maps-empty; answered = refl; map_free = refl; send_free = refl; running = refl },
  refl,
  refl,
  refl,
  λ m s t a b. refl,
)

length-snoc : (q : List Bytes) (c : Bytes) → length (q ++ c ∷ []) ≡ suc (length q)
length-snoc q c = omega (arith, length-append q (c ∷ []))

module _ (host : Host) {d : MsgDistributor} (v : Inv d) where
  -- The delivery of a message for any id keeps the invariant and does not fault.
  pub deliver-Inv : (id : ℤ) (content : Bytes) → Keeps (deliver host id content d)
  deliver-Inv id content = elim (Option-cases (find id d.sem_map)) [
    | inl e ↦ rw (deliver-unknown host d id content e) v
    | inr (p, e) ↦
        let (q, fq, fs, ft) = v.maps.opened id p e in
        rw (deliver-known host d id content p (length q) q e fq fs) (record {
          maps = rw (length-snoc q content) at (Maps-requeue v.maps id p (q ++ content ∷ []) e);
          answered = v.answered;
          map_free = v.map_free;
          send_free = v.send_free;
          running = v.running;
        })
  ]

  -- Closing any socket from the other end keeps the invariant and does not fault, once the object
  -- is initialised.
  pub close-Inv : (sock : ℤ) → unopened d ≡ false → Keeps (close host sock true d)
  close-Inv sock opened = elim (Option-cases (find sock d.sem_map)) [
    | inl e ↦ rw (close-unknown host d sock true opened e) v
    | inr (p, e) ↦
        let (q, fq, fs, ft) = v.maps.opened sock p e in
        rw (close-passive host d sock p (length q) opened v.map_free e fs) (record {
          maps = Maps-close v.maps sock p (suc (length q)) e;
          answered = v.answered;
          map_free = refl;
          send_free = v.send_free;
          running = v.running;
        })
  ]

  -- A thread in connect, woken or not, keeps the invariant and never takes from an empty queue.
  pub connect_response-Inv : Keeps (connect_response host d)
  connect_response-Inv = connecting d.connect_sem d.connect_queue refl refl
    where
      connecting :
          (n : ℕ) (q : List ℤ)
          → d.connect_sem ≡ n
          → d.connect_queue ≡ q
          → Keeps (connect_response host d)
      connecting zero q e f = rw (connect_response-waits host d e) v
      connecting (suc n) [] e f = absurd (ground (arith, v.answered))
      connecting (suc n) (id ∷ rest) e f =
          rw (connect_response_lem host d id rest n v.map_free v.running e f) (record {
            maps = Maps-register v.maps id;
            answered = ground (arith, v.answered);
            map_free = refl;
            send_free = v.send_free;
            running = v.running;
          })
