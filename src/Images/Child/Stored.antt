-- ===== src/Images/Child/Stored.antt =====
-- The copies that `transmit_child` sends over a socket, and what the server makes of each.
use painting_cps.Prelude.{
  ℕ, zero, suc, ◌+◌, ◌-◌, ◌^◌, ◌==◌, ◌≤◌, ◌<◌, ◌≡◌, ◌≢◌, refl, sym, ◌∙◌, ap, subst, pos, int_max,
  List, [], ◌∷◌, ◌++◌, map, some, arith, if◌then◌else◌, Bool-cases, inl, inr, length, length-append,
  append_assoc, append-nil, replicate,
}
use painting_cps.Exec.{ok, done}
use painting_cps.CText.{Bytes, codes, print_nat}
use painting_cps.CText.Decimal.{print_nat-AllDigits}
use painting_cps.CText.Tokens.{IsPlain, AllDigits-IsPlain}
use painting_cps.CText.Copies.{sprintf-fits}
use painting_cps.MsgDistributor.Frames.Laws.{length-print_nat-le}
use painting_cps.Calls.{Call, Reply, net}
use painting_cps.Images.Info.{fake_name, info_text}
use painting_cps.Images.Blocks.{flatten, NonEmpty, flatten-fread_blocks}
use painting_cps.Images.Tcp.{tcp_block, send_tcp, tcp_request, received, tcp_request-file}
use painting_cps.Images.Child.{announced_name, tcp_copies, transmit_child}
use painting_cps.Images.Child.Sent.{info_block, copy_replies, copy_calls, tcp_copy-all}

-- The name of a copy and the number behind it, when `n` copies of a file are sent.
abbrev pub name_of_copy : ℕ → Bytes → ℕ → Bytes
name_of_copy n file_name fake_id = if n == 1 then file_name else fake_name fake_id

abbrev pub next_copy : ℕ → ℕ → ℕ
next_copy n fake_id = if n == 1 then fake_id else fake_id + 1

-- A name that the server can read.
abbrev pub IsName : Bytes → Type 0
IsName name = (name ≢ []) × (length name < 60) × IsPlain b',' name

IsPlain-append : (s t : Bytes) → IsPlain b',' s → IsPlain b',' t → IsPlain b',' (s ++ t)
IsPlain-append [] t hs ht = ht
IsPlain-append (c ∷ s) t (c0, cd, hs) ht = (c0, cd, IsPlain-append s t hs ht)

fake_name-IsName : (id : ℕ) → id < 2 ^ 31 → IsName (fake_name id)
unfolding fake_name
fake_name-IsName id small =
    let digits = print_nat id in
    let plain =
      IsPlain-append digits (codes ".jpg") (AllDigits-IsPlain digits (print_nat-AllDigits id))
        (ground arith) in
    (
      λ e. cc,
      omega (arith, length-append digits (codes ".jpg"), length-print_nat-le id small),
      ground (arith, plain),
    )

module _ (stack : ℕ → Bytes) (n : ℕ) (file_name : Bytes) (array : length (stack 100) ≡ 100) where
  announced_name-copy :
      (id : ℕ)
      → id < int_max
      → announced_name (pos n) file_name stack id ≡ ok (name_of_copy n file_name id, next_copy n id)
  unfolding announced_name
  announced_name-copy id low =
      let short = (fake_name-IsName id (omega (arith, low))).1 in
      elim (Bool-cases (n == 1)) [
        | inl one ↦ rw one refl
        | inr more ↦
            rw (more, sprintf-fits (stack 100) (fake_name id) (omega (arith, array, short)))
              (ground (arith, low))
      ]

  name_of_copy-IsName :
      (id : ℕ) → id < int_max → IsName file_name → IsName (name_of_copy n file_name id)
  name_of_copy-IsName id low named = elim (Bool-cases (n == 1)) [
    | inl one ↦ rw one named
    | inr more ↦ rw more (fake_name-IsName id (omega (arith, low)))
  ]

  next_copy-le : (id : ℕ) → next_copy n id ≤ id + 1
  next_copy-le id = ground arith

-- The answers and the calls of `k` copies from a number on.
abbrev pub copies_replies : ℕ → Bytes → ℕ → List Reply
copies_replies fp file zero = []
copies_replies fp file (suc k) = copy_replies fp file (copies_replies fp file k)

abbrev pub last_id : ℕ → ℕ → ℕ → ℕ
last_id n zero id = id
last_id n (suc k) id = last_id n k (next_copy n id)

module _ (n : ℕ) (file_name : Bytes) (sockfd : ℕ) (file : Bytes) where
  abbrev pub copies_calls : ℕ → ℕ → List Call
  copies_calls zero id = []
  copies_calls (suc k) id =
      copy_calls sockfd file_name (name_of_copy n file_name id) file
      ++ copies_calls k (next_copy n id)

-- The server, given what a copy writes, stores the file under the copy's name.
abbrev pub AllStored : (ℕ → Bytes) → ℕ → Bytes → Bytes → ℕ → ℕ → Type 0
AllStored heap n file_name file zero id = Unit {0}
AllStored heap n file_name file (suc k) id =
    let name = name_of_copy n file_name id in
    (tcp_request heap (info_block name (length file)) (map some (send_tcp file))
      ≡ ok (name, pos (length file), received file []))
    × AllStored heap n file_name file k (next_copy n id)

tcp_request-blocks :
    (heap : ℕ → Bytes) (name file : Bytes) (blocks : List Bytes)
    → blocks ≡ send_tcp file
    → length (heap (length file)) ≡ length file
    → IsName name
    → 1 ≤ length file
    → length file < 2 ^ 31
    → tcp_request heap (info_block name (length file)) (map some blocks)
      ≡ ok (name, pos (length file), received file [])
unfolding send_tcp
tcp_request-blocks heap name file [] cut sized (ne, short, plain) filled small =
    let all = flatten-fread_blocks (suc (length file)) tcp_block file (omega arith) (omega arith) in
    absurd (omega (arith, filled, ap length (ap flatten cut ∙ all.0)))
tcp_request-blocks heap name file (b ∷ parts) cut sized (ne, short, plain) filled small =
    let all = flatten-fread_blocks (suc (length file)) tcp_block file (omega arith) (omega arith) in
    let each = subst NonEmpty (sym cut) all.1 in
    let zeros : Bytes = replicate (tcp_block - length (info_text name (length file)) - 1) 0 in
    rw (append-nil (map some parts)) at (
      tcp_request-file heap name zeros file b parts [] sized ne short plain small each
        (ap flatten cut))

module _ (stack heap : ℕ → Bytes) (n : ℕ) (file_name file : Bytes) (sockfd fp : ℕ)
    (array : length (stack 100) ≡ 100) (sized : length (heap (length file)) ≡ length file)
    (named : IsName file_name) (filled : 1 ≤ length file) (small : length file < 2 ^ 31)
    (there : 0 < fp) where
  tcp_copies-all :
      (k id : ℕ) (trace : List Call)
      → id + k ≤ int_max
      → (tcp_copies stack (pos n) file_name k (pos sockfd) id (net (copies_replies fp file k) trace)
          ≡ done (last_id n k id) (net [] (trace ++ copies_calls n file_name sockfd file k id)))
        × AllStored heap n file_name file k id
  unfolding tcp_copies
  tcp_copies-all zero id trace room = (rw (append-nil trace) refl, tt)
  tcp_copies-all (suc k) id trace room =
      let name = name_of_copy n file_name id in
      let next = next_copy n id in
      let good = name_of_copy-IsName stack n file_name array id (omega (arith, room)) named in
      let calls = copy_calls sockfd file_name name file in
      let later =
        tcp_copies-all k next (trace ++ calls)
          (omega (arith, room, next_copy-le stack n file_name array id)) in
      let copied =
        tcp_copy-all stack (pos n) file_name sockfd fp name file id next (copies_replies fp file k)
          trace (announced_name-copy stack n file_name array id (omega (arith, room))) good.1 small
          there in
      (
        rw copied (
            later.0
            ∙ ap (λ (t : List Call). done (last_id n k next) (net [] t))
                (append_assoc trace calls (copies_calls n file_name sockfd file k next))),
        (tcp_request-blocks heap name file (send_tcp file) refl sized good filled small, later.1),
      )

  -- For a file that is not empty and below 2^31 bytes, under a name that is not empty, shorter than 60
  -- bytes and without comma or NUL, a thread whose calls succeed makes the calls of n copies, the
  -- single copy under the file's name and several under names of their own; and from what each copy
  -- writes the server stores the whole file under the copy's name, into a new array of its size,
  -- while the numbers of the copies stay below 2^31.
  pub transmit_child-stored :
      (id : ℕ)
      → id + n ≤ int_max
      → (transmit_child stack (pos n) file_name (pos sockfd) id (net (copies_replies fp file n) [])
          ≡ done (last_id n n id) (net [] (copies_calls n file_name sockfd file n id)))
        × AllStored heap n file_name file n id
  unfolding transmit_child
  transmit_child-stored id room = tcp_copies-all n id [] room
