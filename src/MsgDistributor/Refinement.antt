-- ===== src/MsgDistributor/Refinement.antt =====
-- The methods implement `Channels`: what callers see of the maps, semaphores, locks and frames.
pub mod Messages
pub mod Calls
pub mod Actions
pub mod Runs
use mathlib.Core.Path.{fun_ext}
use painting_cps.Prelude.{
  ℕ, zero, suc, ◌+◌, ◌^◌, ◌≤◌, ◌<◌, ◌≡◌, ◌≢◌, refl, sym, ap, subst, ◌∙◌, inl, inr, ℤ, pos,
  minus_one, beq_ℤ, beq_ℤ_iff, is_neg, int_eq, int_max, Bool, true, false, List, [], ◌∷◌, ◌++◌,
  Option, none, some, arith, length, get_elem?, set, Option-cases, Bool-cases, if◌then◌else◌,
}
use painting_cps.Prelude.Assoc.{find, insert, erase, find-insert, find-erase}
use painting_cps.Exec.{Outcome, done, exits, waits, faults, ◌>>=◌, pure, ok, out_of_bounds}
use painting_cps.CText.{Bytes}
use painting_cps.MsgDistributor.State.{Host, MsgDistributor, Method, max_chunk}
use painting_cps.MsgDistributor.Frames.{create_text, accepted_text, close_text, sock_message}
use painting_cps.MsgDistributor.Methods.{unopened, listen, deliver, close}
use painting_cps.MsgDistributor.Connections.{connect_response, accept_response}
use painting_cps.MsgDistributor.Transfer.{recv}
use painting_cps.MsgDistributor.Handshake.{frame}
use painting_cps.MsgDistributor.Invariant.{Inv}
use painting_cps.MsgDistributor.Channels.{
  Channels, Message, creates, answers, brings, hangs_up, Action, hears, connects, accepts, receives,
  closes, put, Step, Blocked, IsOverread,
}

-- What the peer's methods put on the network.
abbrev pub encode : Host → Message → Bytes
encode sender creates = frame sender create_text
encode sender (answers id) = frame sender (accepted_text (pos id))
encode sender (brings id content) = sock_message (pos id) content
encode sender (hangs_up id) = frame sender (close_text (pos id))

abbrev pub channels : List (ℤ × List Bytes) → List ℤ → ℕ → Channels
channels m q n = record { queue_of = λ id. find id m; answered = q; invited = n }

abbrev pub view : MsgDistributor → Channels
view d = channels d.queue_map d.connect_queue d.accept_sem

module _ (sender host : Host) where
  -- An action as the method that carries it out, with no other thread in between.
  abbrev pub perform : Action → Method (ℤ × Bytes)
  perform (hears m) = do r ← listen host (some (encode sender m)); pure (r, [])
  perform connects = do r ← connect_response host; pure (r, [])
  perform accepts = do r ← accept_response host; pure (r, [])
  perform (receives id size) = recv host id size (pure tt)
  perform (closes id) = do r ← close host (pos id) false; pure (r, [])

-- The bounds in which the methods work: ids that `%d` and the loop on its digits manage, messages
-- that fit the array of `listen`, and for `accept` the id lock and room for one more id.
abbrev pub Ready : MsgDistributor → Action → Type 0
Ready d (hears creates) = Unit
Ready d (hears (answers id)) = id < 2 ^ 31
Ready d (hears (brings id content)) =
    (id < 10 ^ 9) × (length (sock_message (pos id) content) ≤ max_chunk)
Ready d (hears (hangs_up id)) = id < 2 ^ 31
Ready d connects = Unit
Ready d accepts =
    (d.id_lock ≡ false)
    × ((last : ℕ) × (d.mfsockid ≡ pos last) × (last + length d.sem_map + 2 ≤ int_max))
Ready d (receives id size) = Unit
Ready d (closes id) = id < 2 ^ 31

-- An outcome of the method, as a step of the channels. The process ends in `accept` only, when the
-- network refuses its answer, and the one fault is a receiver that asks for more than it gets.
abbrev pub Simulates : Channels → Action → Outcome MsgDistributor (ℤ × Bytes) → Type 0
Simulates c a (done r e) = Inv e × (unopened e ≡ false) × Step c a r (view e)
Simulates c a (exits n e) = (a ≡ accepts) × (n ≡ pos 1)
Simulates c a (waits e) = Inv e × (view e ≡ c) × Blocked c a
Simulates c a (faults e) = (e ≡ out_of_bounds) × IsOverread c a

pub channels-insert :
    (id : ℤ) (q : List Bytes) (m : List (ℤ × List Bytes)) (ids : List ℤ) (n : ℕ)
    → put id (some q) (channels m ids n) ≡ channels (insert id q m) ids n
channels-insert id q m ids n =
    ap (λ (f : ℤ → Option (List Bytes)). record { queue_of = f; answered = ids; invited = n })
      (fun_ext λ j. sym (find-insert id j q m))

pub channels-erase :
    (id : ℤ) (m : List (ℤ × List Bytes)) (ids : List ℤ) (n : ℕ)
    → put id none (channels m ids n) ≡ channels (erase id m) ids n
channels-erase id m ids n =
    ap (λ (f : ℤ → Option (List Bytes)). record { queue_of = f; answered = ids; invited = n })
      (fun_ext λ j. sym (find-erase id j m))
