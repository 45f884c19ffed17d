-- ===== src/Options/Server.antt =====
-- `main` of server/server-OpenCV.cpp.
use painting_cps.Prelude.{
  ℕ, ◌≡◌, ◌≢◌, refl, ap, sym, ◌∙◌, beq_ℤ_iff, ◌⊎◌, inl, inr, ℤ, pos, minus_one, beq_ℤ, leb, ◌==◌,
  List, [], ◌∷◌, Bool, true, false, not, ◌&&◌, ◌||◌, if◌then◌else◌, Option, some, none, arith,
}
use painting_cps.Exec.{Result, ok, fault, Result-cases}
use painting_cps.CText.{Bytes, to_int}

-- One result of `getopt_long_only`: an option that it does not know, or the index in `long_options`
-- with `optarg`.
pub data Parsed : Type 0 where
  unrecognized : Parsed
  option : ℕ → Option Bytes → Parsed

-- The global flags and the locals that the options set.
pub record Settings : Type 0 where
  pub orbit : Bool
  pub tcp : Bool
  pub debug : Bool
  pub storm : Bool
  pub train : Bool
  pub kafka : Bool
  pub mf : Bool
  pub src_guid : ℤ
  pub dst_guid : ℤ
  pub max_image : ℤ

abbrev pub defaults : Settings
defaults = record {
  orbit = false;
  tcp = true;
  debug = false;
  storm = false;
  train = false;
  kafka = false;
  mf = false;
  src_guid = minus_one;
  dst_guid = minus_one;
  max_image = pos 5;
}

-- `main` goes on with the settings, or returns 0 with a text printed.
pub data Choice : Type 0 where
  chosen : Settings → Choice
  printed : Choice

abbrev with_number : Option Bytes → (ℤ → Settings) → Result Choice
with_number optarg f = elim (to_int optarg) [ ok n ↦ ok (chosen (f n)) | fault e ↦ fault e ]

-- The `switch` on the option's index.
unfoldable pub select : Settings → ℕ → Option Bytes → Result Choice
select s index optarg =
    if leb index 3
    then ok printed
    else if index == 4
    then ok (chosen (record s { orbit = true; tcp = false }))
    else if index == 5
    then ok (chosen (record s { debug = true }))
    else if index == 6
    then with_number optarg (λ n. record s { src_guid = n })
    else if index == 7
    then with_number optarg (λ n. record s { dst_guid = n })
    else if index == 8
    then ok (chosen (record s { storm = true }))
    else if index == 9
    then ok (chosen (record s { train = true }))
    else if index == 10
    then with_number optarg (λ n. record s { max_image = n })
    else if index == 11
    then ok (chosen (record s { kafka = true }))
    else if index == 12
    then ok (chosen (record s { mf = true; tcp = false }))
    else ok printed

-- One round of the loop, for what it goes on with.
abbrev next : Result Choice → (Settings → Result Choice) → Result Choice
next (ok (chosen s)) f = f s
next (ok printed) f = ok printed
next (fault e) f = fault e

unfoldable pub parse : Settings → List Parsed → Result Choice
unfolding select
parse s [] = ok (chosen s)
parse s (unrecognized ∷ rest) = ok printed
parse s (option index optarg ∷ rest) = next (select s index optarg) (λ t. parse t rest)

-- How the program goes on: it ends, with a code, or it trains, or it runs the server; before that
-- it opens MsgDistributor or MFPackager with the GUIDs, or neither.
pub data Network : Type 0 where
  sockets : Network
  msg_distributor mf_packager : ℤ → ℤ → Network

pub data Start : Type 0 where
  ends : ℕ → Start
  trains runs : Settings → Network → Start

-- The calls for the network. Without both GUIDs it ends by `exit(1)`.
unfoldable pub network : Settings → Option Network
network s =
    if s.orbit || s.mf
    then if not (beq_ℤ s.src_guid minus_one) && not (beq_ℤ s.dst_guid minus_one)
      then some (
          if s.orbit
          then msg_distributor s.src_guid s.dst_guid
          else mf_packager s.src_guid s.dst_guid)
      else none
    else some sockets

unfoldable pub begin : Settings → Option Network → Start
begin s none = ends 1
begin s (some n) = if s.train then trains s n else runs s n

abbrev finish : Result Choice → Result Start
finish (ok (chosen s)) = ok (begin s (network s))
finish (ok printed) = ok (ends 0)
finish (fault e) = fault e

unfoldable pub start : List Parsed → Result Start
unfolding parse
start args = finish (parse defaults args)

-- Sockets are used exactly when neither network mode is on.
pub record Consistent (s : Settings) : Type 0 where
  pub exclusive : s.tcp ≡ not (s.orbit || s.mf)

select-Consistent :
    (s t : Settings) (index : ℕ) (optarg : Option Bytes)
    → Consistent s
    → select s index optarg ≡ ok (chosen t)
    → Consistent t
unfolding select
select-Consistent s t index optarg h e =
    let known = h.exclusive in
    elim (Result-cases (to_int optarg)) [
      | inl (n, num) ↦ record { exclusive = ground (arith, known, num, e) }
      | inr (f, num) ↦ record { exclusive = ground (arith, known, num, e) }
    ]

next-chosen :
    (r : Result Choice) (f : Settings → Result Choice) (t : Settings)
    → next r f ≡ ok (chosen t)
    → (s : Settings) × (r ≡ ok (chosen s)) × (f s ≡ ok (chosen t))
next-chosen (ok (chosen s)) f t e = (s, refl, e)
next-chosen (ok printed) f t e = absurd (ground (arith, e))
next-chosen (fault x) f t e = absurd (ground (arith, e))

parse-Consistent :
    (args : List Parsed) (s t : Settings)
    → Consistent s
    → parse s args ≡ ok (chosen t)
    → Consistent t
unfolding parse
parse-Consistent [] s t h e = record { exclusive = ground (arith, h.exclusive, e) }
parse-Consistent (unrecognized ∷ rest) s t h e = absurd (ground (arith, e))
parse-Consistent (option index optarg ∷ rest) s t h e =
    let (u, one, more) = next-chosen (select s index optarg) (λ v. parse v rest) t e in
    parse-Consistent rest u t (select-Consistent s u index optarg h one) more

begin-runs :
    (t s : Settings) (o : Option Network) (n : Network)
    → begin t o ≡ runs s n
    → (t ≡ s) × (o ≡ some n)
unfolding begin
begin-runs t s none n e = absurd (ground (arith, e))
begin-runs t s (some m) n e = ground (arith, e)

network-some :
    (s : Settings) (n : Network)
    → network s ≡ some n
    → (n ≡ (
        if s.orbit
        then msg_distributor s.src_guid s.dst_guid
        else if s.mf
        then mf_packager s.src_guid s.dst_guid
        else sockets))
      × (((s.orbit || s.mf) ≡ false) ⊎ ((s.src_guid ≢ minus_one) × (s.dst_guid ≢ minus_one)))
unfolding network
network-some s n e =
    ground (arith, e, beq_ℤ_iff s.src_guid minus_one, beq_ℤ_iff s.dst_guid minus_one)

finish-runs :
    (r : Result Choice) (s : Settings) (n : Network)
    → finish r ≡ ok (runs s n)
    → (r ≡ ok (chosen s)) × (network s ≡ some n)
finish-runs (ok (chosen t)) s n e =
    let (same, opened) = begin-runs t s (network t) n (ground (arith, e)) in
    (ap (λ (u : Settings). ok (chosen u)) same, sym (ap network same) ∙ opened)
finish-runs (ok printed) s n e = absurd (ground (arith, e))
finish-runs (fault x) s n e = absurd (ground (arith, e))

-- When the server runs, it uses sockets exactly when neither network mode is on, and otherwise it
-- opened the mode's network with two GUIDs that are not -1.
pub start-runs :
    (args : List Parsed) (s : Settings) (n : Network)
    → start args ≡ ok (runs s n)
    → (s.tcp ≡ not (s.orbit || s.mf))
      × (n ≡ (
          if s.orbit
          then msg_distributor s.src_guid s.dst_guid
          else if s.mf
          then mf_packager s.src_guid s.dst_guid
          else sockets))
      × ((s.tcp ≡ true) ⊎ ((s.src_guid ≢ minus_one) × (s.dst_guid ≢ minus_one)))
unfolding start
start-runs args s n e =
    let (read, opened) = finish-runs (parse defaults args) s n e in
    let tcp = (parse-Consistent args defaults s (record { exclusive = refl }) read).exclusive in
    let (which, guids) = network-some s n opened in (tcp, which, ground (arith, tcp, guids))
