-- ===== src/Options/Client.antt =====
-- `main` of client/client-OpenCV.cpp.
use painting_cps.Prelude.{
  ℕ, ◌≡◌, ◌≢◌, refl, ap, sym, ◌∙◌, beq_ℤ_iff, subst, ◌⊎◌, inl, inr, ℤ, pos, minus_one, beq_ℤ, leb,
  ◌==◌, List, [], ◌∷◌, Bool, true, false, not, ◌&&◌, ◌||◌, if◌then◌else◌, Option, some, none, arith,
}
use painting_cps.Exec.{Result, ok, fault, null_pointer, Result-cases}
use painting_cps.CText.{Bytes, codes, to_int}
use painting_cps.Options.Server.{
  Parsed, unrecognized, option, Network, sockets, msg_distributor, mf_packager,
}

-- The global flags and the locals that the options set.
pub record Settings : Type 0 where
  pub user_id : Bytes
  pub orbit : Bool
  pub tcp : Bool
  pub debug : Bool
  pub src_guid : ℤ
  pub dst_guid : ℤ
  pub global_dst_guid : ℤ
  pub delay_time : ℤ
  pub test : Bool
  pub sb : Bool
  pub consume : Bool
  pub size_per_time : ℤ
  pub mf : Bool

abbrev pub defaults : Settings
defaults = record {
  user_id = codes "default";
  orbit = false;
  tcp = true;
  debug = false;
  src_guid = minus_one;
  dst_guid = minus_one;
  global_dst_guid = pos 0;
  delay_time = pos 0;
  test = false;
  sb = false;
  consume = false;
  size_per_time = pos 1;
  mf = false;
}

-- `main` goes on with the settings, or returns 0 with a text printed.
pub data Choice : Type 0 where
  chosen : Settings → Choice
  printed : Choice

abbrev with_number : Option Bytes → (ℤ → Settings) → Result Choice
with_number optarg f = elim (to_int optarg) [ ok n ↦ ok (chosen (f n)) | fault e ↦ fault e ]

-- `strdup(optarg)`.
abbrev with_text : Option Bytes → (Bytes → Settings) → Result Choice
with_text none f = fault null_pointer
with_text (some t) f = ok (chosen (f t))

-- The `switch` on the option's index.
unfoldable pub select : Settings → ℕ → Option Bytes → Result Choice
select s index optarg =
    if leb index 3
    then ok printed
    else if index == 4
    then with_text optarg (λ t. record s { user_id = t })
    else if index == 5
    then ok (chosen (record s { orbit = true; tcp = false }))
    else if index == 6
    then ok (chosen (record s { debug = true }))
    else if index == 7
    then with_number optarg (λ n. record s { src_guid = n })
    else if index == 8
    then with_number optarg (λ n. record s { dst_guid = n; global_dst_guid = n })
    else if index == 9
    then with_number optarg (λ n. record s { delay_time = n; test = true })
    else if index == 10
    then ok (chosen (record s { sb = true }))
    else if index == 11
    then ok (chosen (record s { consume = true }))
    else if index == 12
    then with_number optarg (λ n. record s { size_per_time = n })
    else if index == 13
    then ok (chosen (record s { mf = true; tcp = false }))
    else ok printed

-- One round of the loop, for what it goes on with.
abbrev next : Result Choice → (Settings → Result Choice) → Result Choice
next (ok (chosen s)) f = f s
next (ok printed) f = ok printed
next (fault e) f = fault e

unfoldable pub parse : Settings → List Parsed → Result Choice
unfolding select
parse s [] = ok (chosen s)
parse s (unrecognized ∷ rest) = ok printed
parse s (option index optarg ∷ rest) = next (select s index optarg) (λ t. parse t rest)

-- The program ends with a code, or starts its threads.
pub data Start : Type 0 where
  ends : ℕ → Start
  runs : Settings → Network → Start

-- The calls for the network. Without both GUIDs it ends by `exit(1)`.
unfoldable pub open_network : Settings → Option Network
open_network s =
    if s.orbit || s.mf
    then if not (beq_ℤ s.src_guid minus_one) && not (beq_ℤ s.dst_guid minus_one)
      then some (
          if s.orbit
          then msg_distributor s.src_guid s.dst_guid
          else mf_packager s.src_guid s.dst_guid)
      else none
    else some sockets

unfoldable pub begin : Settings → Option Network → Start
begin s none = ends 1
begin s (some n) = runs s n

abbrev finish : Result Choice → Result Start
finish (ok (chosen s)) = ok (begin s (open_network s))
finish (ok printed) = ok (ends 0)
finish (fault e) = fault e

unfoldable pub start : List Parsed → Result Start
unfolding parse
start args = finish (parse defaults args)

-- Sockets are used exactly when neither network mode is on, and the GUID that the closing messages
-- go to is the one of the connections.
pub record Consistent (s : Settings) : Type 0 where
  pub exclusive : s.tcp ≡ not (s.orbit || s.mf)
  pub target : (s.dst_guid ≡ minus_one) ⊎ (s.global_dst_guid ≡ s.dst_guid)

select-Consistent :
    (s t : Settings) (index : ℕ) (optarg : Option Bytes)
    → Consistent s
    → select s index optarg ≡ ok (chosen t)
    → Consistent t
unfolding select
select-Consistent s t index none h e =
    let known = h.exclusive in
    let same = h.target in
    elim (Result-cases (to_int none)) [
      | inl (n, num) ↦ record {
        exclusive = ground (arith, known, num, e);
        target = ground (arith, same, num, e);
      }
      | inr (f, num) ↦ record {
        exclusive = ground (arith, known, num, e);
        target = ground (arith, same, num, e);
      }
    ]
select-Consistent s t index (some text) h e =
    let known = h.exclusive in
    let same = h.target in
    elim (Result-cases (to_int (some text))) [
      | inl (n, num) ↦ record {
        exclusive = ground (arith, known, num, e);
        target = ground (arith, same, num, e);
      }
      | inr (f, num) ↦ record {
        exclusive = ground (arith, known, num, e);
        target = ground (arith, same, num, e);
      }
    ]

next-chosen :
    (r : Result Choice) (f : Settings → Result Choice) (t : Settings)
    → next r f ≡ ok (chosen t)
    → (s : Settings) × (r ≡ ok (chosen s)) × (f s ≡ ok (chosen t))
next-chosen (ok (chosen s)) f t e = (s, refl, e)
next-chosen (ok printed) f t e = absurd (ground (arith, e))
next-chosen (fault x) f t e = absurd (ground (arith, e))

parse-Consistent :
    (args : List Parsed) (s t : Settings)
    → Consistent s
    → parse s args ≡ ok (chosen t)
    → Consistent t
unfolding parse
parse-Consistent [] s t h e = subst (λ (u : Settings). Consistent u) (ground (arith, e)) h
parse-Consistent (unrecognized ∷ rest) s t h e = absurd (ground (arith, e))
parse-Consistent (option index optarg ∷ rest) s t h e =
    let (u, one, more) = next-chosen (select s index optarg) (λ v. parse v rest) t e in
    parse-Consistent rest u t (select-Consistent s u index optarg h one) more

begin-runs :
    (t s : Settings) (o : Option Network) (n : Network)
    → begin t o ≡ runs s n
    → (t ≡ s) × (o ≡ some n)
unfolding begin
begin-runs t s none n e = absurd (ground (arith, e))
begin-runs t s (some m) n e = ground (arith, e)

open_network-some :
    (s : Settings) (n : Network)
    → open_network s ≡ some n
    → (n ≡ (
        if s.orbit
        then msg_distributor s.src_guid s.dst_guid
        else if s.mf
        then mf_packager s.src_guid s.dst_guid
        else sockets))
      × (((s.orbit || s.mf) ≡ false) ⊎ ((s.src_guid ≢ minus_one) × (s.dst_guid ≢ minus_one)))
unfolding open_network
open_network-some s n e =
    ground (arith, e, beq_ℤ_iff s.src_guid minus_one, beq_ℤ_iff s.dst_guid minus_one)

finish-runs :
    (r : Result Choice) (s : Settings) (n : Network)
    → finish r ≡ ok (runs s n)
    → (r ≡ ok (chosen s)) × (open_network s ≡ some n)
finish-runs (ok (chosen t)) s n e =
    let (same, opened) = begin-runs t s (open_network t) n (ground (arith, e)) in
    (ap (λ (u : Settings). ok (chosen u)) same, sym (ap open_network same) ∙ opened)
finish-runs (ok printed) s n e = absurd (ground (arith, e))
finish-runs (fault x) s n e = absurd (ground (arith, e))

-- When the client runs, it uses sockets exactly when neither network mode is on, and otherwise it
-- opened the mode's network with two GUIDs that are not -1, the second of which gets the closing
-- messages.
start-client :
    (args : List Parsed) (s : Settings) (n : Network)
    → start args ≡ ok (runs s n)
    → (s.tcp ≡ not (s.orbit || s.mf))
      × (n ≡ (
          if s.orbit
          then msg_distributor s.src_guid s.global_dst_guid
          else if s.mf
          then mf_packager s.src_guid s.global_dst_guid
          else sockets))
      × ((s.tcp ≡ true) ⊎ ((s.src_guid ≢ minus_one) × (s.global_dst_guid ≢ minus_one)))
unfolding start
start-client args s n e =
    let (read, opened) = finish-runs (parse defaults args) s n e in
    let all =
      parse-Consistent args defaults s (record { exclusive = refl; target = inl refl }) read in
    let (which, guids) = open_network-some s n opened in
    let tcp = all.exclusive in
    let same = all.target in
    (tcp, ground (arith, which, guids, same), ground (arith, tcp, guids, same))
