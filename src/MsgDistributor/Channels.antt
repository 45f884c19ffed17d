-- ===== src/MsgDistributor/Channels.antt =====
-- What the class promises its callers, without maps, semaphores, locks or frames: queues of messages
-- behind open ids, ids that the peer has answered with, and invitations of the peer.
pub mod Order
use painting_cps.Prelude.{
  ℕ, suc, ◌+◌, ◌≤◌, ◌<◌, ◌≡◌, ◌⊎◌, ℤ, pos, minus_one, beq_ℤ, List, [], ◌∷◌, ◌++◌, Option, none,
  some, take, length, if◌then◌else◌,
}
use painting_cps.CText.{Bytes}

pub record Channels : Type 0 where
  -- the messages that wait behind an open id
  pub queue_of : ℤ → Option (List Bytes)
  -- the ids that `connect` may take
  pub answered : List ℤ
  -- how many connections `accept` may set up
  pub invited : ℕ

-- A message of the peer.
pub data Message : Type 0 where
  creates : Message
  answers : ℕ → Message
  brings : ℕ → Bytes → Message
  hangs_up : ℕ → Message

-- What a caller or the listening thread does with the object.
pub data Action : Type 0 where
  hears : Message → Action
  connects : Action
  accepts : Action
  receives : ℤ → ℕ → Action
  closes : ℕ → Action

abbrev pub put : ℤ → Option (List Bytes) → Channels → Channels
put id q c = record c { queue_of = λ j. if beq_ℤ id j then q else c.queue_of j }

-- An action that returns: the value, the bytes a receiver gets, and the channels behind it.
pub data Step (c : Channels) : Action → ℤ × Bytes → Channels → Type 0 where
  hears_create : Step c (hears creates) (pos 0, []) (record c { invited = c.invited + 1 })
  hears_answer :
      (id : ℕ)
      → Step c (hears (answers id)) (pos 0, []) (record c { answered = c.answered ++ pos id ∷ [] })
  hears_content :
      (id : ℕ) (content : Bytes) (q : List Bytes)
      → c.queue_of (pos id) ≡ some q
      → Step c (hears (brings id content)) (pos 0, []) (put (pos id) (some (q ++ content ∷ [])) c)
  drops_content :
      (id : ℕ) (content : Bytes)
      → c.queue_of (pos id) ≡ none
      → Step c (hears (brings id content)) (minus_one, []) c
  hears_close :
      (id : ℕ) (q : List Bytes)
      → c.queue_of (pos id) ≡ some q
      → Step c (hears (hangs_up id)) (pos 0, []) (put (pos id) none c)
  ignores_close : (id : ℕ) → c.queue_of (pos id) ≡ none → Step c (hears (hangs_up id)) (pos 0, []) c
  takes_answer :
      (id : ℤ) (rest : List ℤ)
      → c.answered ≡ id ∷ rest
      → Step c connects (id, []) (put id (some []) (record c { answered = rest }))
  -- any id that is not in use
  takes_invitation :
      (id n : ℕ)
      → c.invited ≡ suc n
      → c.queue_of (pos id) ≡ none
      → Step c accepts (pos id, []) (put (pos id) (some []) (record c { invited = n }))
  -- the first message, for a caller that asks for no more bytes than it has
  takes_content :
      (id : ℤ) (size : ℕ) (content : Bytes) (rest : List Bytes)
      → c.queue_of id ≡ some (content ∷ rest)
      → size ≤ length content
      → Step c (receives id size) (pos 1, take size content) (put id (some rest) c)
  refuses_receive :
      (id : ℤ) (size : ℕ) → c.queue_of id ≡ none → Step c (receives id size) (minus_one, []) c
  -- the id is gone whether or not the peer could be told
  closes_open :
      (id : ℕ) (r : ℤ) (q : List Bytes)
      → c.queue_of (pos id) ≡ some q
      → (r ≡ pos 0) ⊎ (r ≡ minus_one)
      → Step c (closes id) (r, []) (put (pos id) none c)
  refuses_close : (id : ℕ) → c.queue_of (pos id) ≡ none → Step c (closes id) (minus_one, []) c

-- An action that has to wait for the peer.
pub data Blocked (c : Channels) : Action → Type 0 where
  no_answer : c.answered ≡ [] → Blocked c connects
  no_invitation : c.invited ≡ 0 → Blocked c accepts
  no_content : (id : ℤ) (size : ℕ) → c.queue_of id ≡ some [] → Blocked c (receives id size)

-- A caller that asks for more bytes than the first message has.
abbrev pub IsOverread : Channels → Action → Type 0
IsOverread c (receives id size) =
    (content : Bytes) × (rest : List Bytes) × (c.queue_of id ≡ some (content ∷ rest))
    × (length content < size)
IsOverread c (hears m) = ⊥
IsOverread c connects = ⊥
IsOverread c accepts = ⊥
IsOverread c (closes id) = ⊥
