-- ===== src/Login.antt =====
-- The logins of server/server-OpenCV.cpp: the header of a connection in `serverThread`, and `user_map`.
use painting_cps.Prelude.{
  ℕ, ◌+◌, ◌≡◌, ◌≢◌, refl, List, [], ◌∷◌, ◌++◌, Bool, true, false, Option, none, some, ◌==◌,
  beq_bytes, bytes_eq, if◌then◌else◌, arith, ap, min, append_assoc, length, Option-cases,
  Bool-cases, inl, inr,
}
use painting_cps.Prelude.Assoc.{find, insert, erase, find-insert, find-erase}
use painting_cps.Exec.{Result, ok, fault, bind, null_pointer}
use painting_cps.CText.{Bytes, codes, strtok, strtok_next, text_of}
use painting_cps.CText.Tokens.{IsPlain, strtok-word, strtok-last}

-- `user_map`: the connections that logged in under a name.
abbrev pub Users : Type 0
Users = List (Bytes × ℕ)

-- What becomes of a connection.
pub data Served : Type 0 where
  transmit result : Bytes → Served
  unknown : Served
  failed : Served

abbrev count_of : Option ℕ → Users → Bytes → Users × Bool
count_of none users user = (insert user 1 users, true)
count_of (some n) users user = if n == 1 then (insert user 2 users, true) else (users, false)

-- The part under `user_map_lock`: the map afterwards, and whether the connection goes on.
unfoldable pub log_in : Users → Bytes → Users × Bool
log_in users user = count_of (find user users) users user

-- The choice by the connection's command.
unfoldable pub command : Bytes → Bytes → Served
command thread_type user =
    if beq_bytes thread_type (codes "transmit")
    then transmit user
    else if beq_bytes thread_type (codes "result")
    then result user
    else unknown

abbrev pub answer : Users × Bool → Bytes → Bytes → Users × Served
answer (users, true) thread_type user = (users, command thread_type user)
answer (users, false) thread_type user = (users, failed)

abbrev pointer : Option Bytes → Result Bytes
pointer none = fault null_pointer
pointer (some t) = ok t

-- `serverThread` for the header in its buffer. A header without a second field makes `userID` from
-- a null pointer.
unfoldable pub server_thread : Users → Bytes → Result (Users × Served)
server_thread users buffer = bind (strtok b',' 0 buffer) (λ first.
    bind (strtok_next b',' first) (λ second. bind (pointer (text_of second)) (λ user_id.
      bind (pointer (text_of first))
        (λ thread_type. ok (answer (log_in users user_id) thread_type user_id)))))

-- `user_map.erase(userID)`, when `server_result` finds its queue empty.
unfoldable pub log_out : Users → Bytes → Users
log_out users user = erase user users

-- The client's header: its thread's command and its user.
unfoldable pub header : Bytes → Bytes → Bytes
header thread_type user = thread_type ++ b',' ∷ user

-- The server reads from a client's header its command and its user, neither of them empty or with
-- a comma or NUL, and answers by the login of that user.
pub server_thread-header :
    (users : Users) (thread_type user tail : Bytes)
    → thread_type ≢ []
    → IsPlain b',' thread_type
    → user ≢ []
    → IsPlain b',' user
    → server_thread users (header thread_type user ++ 0 ∷ tail)
      ≡ ok (answer (log_in users user) thread_type user)
unfolding server_thread header strtok_next text_of
server_thread-header users thread_type user tail ne plain full clean =
    let word = strtok-word b',' 0 thread_type (user ++ 0 ∷ tail) (λ e. omega (arith, e)) ne plain in
    let last =
      strtok-last b',' (0 + length thread_type + 1) user tail (λ e. omega (arith, e)) full clean in
    rw (append_assoc thread_type (b',' ∷ user) (0 ∷ tail)) (ground (arith, word, last))

-- The logins of a list of connections, one after the other: how many for `user` went on.
abbrev pub log_ins : Users → List Bytes → Bytes → ℕ
log_ins users [] user = 0
log_ins users (u ∷ us) user =
    let (after, went_on) = log_in users u in
    let later = log_ins after us user in
    if beq_bytes u user then (if went_on then 1 + later else later) else later

abbrev pub tries : List Bytes → Bytes → ℕ
tries [] user = 0
tries (u ∷ us) user = (if beq_bytes u user then 1 else 0) + tries us user

-- The places that are left for a user.
abbrev free : Option ℕ → ℕ
free none = 2
free (some n) = if n == 1 then 1 else 0

same_user : (u : Bytes) → beq_bytes u u ≡ true
same_user u = (bytes_eq.beq_iff u u).1 refl

log_in-other :
    (users : Users) (u user : Bytes)
    → beq_bytes u user ≡ false
    → find user (log_in users u).0 ≡ find user users
unfolding log_in
log_in-other users u user other = elim (Option-cases (find u users)) [
  | inr (n, known) ↦ ground (arith, known, find-insert u user 2 users, other)
  | inl fresh ↦ ground (arith, fresh, find-insert u user 1 users, other)
]

log_in-same :
    (users : Users) (u : Bytes)
    → free (find u users) ≡ (
        if (log_in users u).1
        then 1 + free (find u (log_in users u).0)
        else free (find u (log_in users u).0))
unfolding log_in
log_in-same users u = elim (Option-cases (find u users)) [
  | inr (n, known) ↦ ground (arith, known, find-insert u u 2 users, same_user u)
  | inl fresh ↦ ground (arith, fresh, find-insert u u 1 users, same_user u)
]

log_in-full : (users : Users) (u : Bytes) → (log_in users u).1 ≡ false → free (find u users) ≡ 0
unfolding log_in
log_in-full users u refused = elim (Option-cases (find u users)) [
  | inr (n, known) ↦ ground (arith, known, refused)
  | inl fresh ↦ ground (arith, fresh, refused)
]

log_ins_lem :
    (users : Users) (us : List Bytes) (user : Bytes)
    → log_ins users us user ≡ min (tries us user) (free (find user users))
log_ins_lem users [] user = omega arith
log_ins_lem users (u ∷ us) user =
    let after = (log_in users u).0 in
    let ih = log_ins_lem after us user in
    elim (Bool-cases (beq_bytes u user)) [
      | inl same ↦
          let e : u ≡ user = (bytes_eq.beq_iff u user).0 same in
          let moved = log_in-same users u in
          elim (Bool-cases (log_in users u).1) [
            | inl went_on ↦
                rw (same, went_on, ih)
                  (omega (
                    arith,
                    rw went_on at moved,
                    ap (λ (v : Bytes). free (find v users)) e,
                    ap (λ (v : Bytes). free (find v after)) e,
                  ))
            | inr refused ↦
                rw (same, refused, ih)
                  (omega (
                    arith,
                    log_in-full users u refused,
                    rw refused at moved,
                    ap (λ (v : Bytes). free (find v users)) e,
                    ap (λ (v : Bytes). free (find v after)) e,
                  ))
          ]
      | inr other ↦ rw (other, ih, log_in-other users u user other) (omega arith)
    ]

-- Starting with nobody logged in, of the connections under one name exactly the first two go on,
-- however many other names log in between.
pub log_ins-two : (us : List Bytes) (user : Bytes) → log_ins [] us user ≡ min (tries us user) 2
unfolding find
log_ins-two us user = log_ins_lem [] us user

-- After a user's name is erased, two connections under it go on again, and no more.
pub log_ins-log_out :
    (users : Users) (us : List Bytes) (user : Bytes)
    → log_ins (log_out users user) us user ≡ min (tries us user) 2
unfolding log_out
log_ins-log_out users us user =
    rw (log_ins_lem (erase user users) us user, find-erase user user users, same_user user) refl

-- After two connections with an unknown command under a new name, a third one under that name
-- fails, whatever its command; no command and no name is empty or has a comma or NUL.
pub server_thread-lock_out :
    (users : Users) (bad good user tail : Bytes)
    → find user users ≡ none
    → bad ≢ []
    → IsPlain b',' bad
    → good ≢ []
    → IsPlain b',' good
    → user ≢ []
    → IsPlain b',' user
    → command bad user ≡ unknown
    → (one two : Users) × (server_thread users (header bad user ++ 0 ∷ tail) ≡ ok (one, unknown))
      × (server_thread one (header bad user ++ 0 ∷ tail) ≡ ok (two, unknown))
      × (server_thread two (header good user ++ 0 ∷ tail) ≡ ok (two, failed))
unfolding log_in
server_thread-lock_out users bad good user tail fresh nb pb ng pg nu pu not_known =
    let one = insert user 1 users in
    let two = insert user 2 one in
    let at_one : find user one ≡ some 1 = rw (find-insert user user 1 users, same_user user) refl in
    let at_two : find user two ≡ some 2 = rw (find-insert user user 2 one, same_user user) refl in
    (
      one,
      two,
      rw (server_thread-header users bad user tail nb pb nu pu, fresh, not_known) refl,
      rw (server_thread-header one bad user tail nb pb nu pu, at_one, not_known) refl,
      rw (server_thread-header two good user tail ng pg nu pu, at_two) refl,
    )
