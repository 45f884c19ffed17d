-- ===== src/Client/Stop.antt =====
-- `client_stop`: in orbit mode it tells the server to close every connection in `id_set`. The set is
-- the list of its elements in the order in which the loop meets them.
use painting_cps.Prelude.{
  ℕ, suc, ◌+◌, ◌-◌, ◌^◌, ◌≤◌, ◌<◌, ◌≡◌, ◌≢◌, refl, ap, ◌∙◌, inl, inr, ℤ, pos, minus_one, beq_ℤ,
  beq_ℤ_iff, int_eq, Bool, List, [], ◌∷◌, ◌++◌, Option, none, some, arith, true, false, length,
  length-append, append_assoc, replicate, length-replicate, if◌then◌else◌, Option-cases,
}
use painting_cps.Prelude.Assoc.{find, find-erase, key_cases}
use painting_cps.Exec.{Result, ok, bind, done, ◌>>◌, pure}
use painting_cps.CText.{Bytes, codes, print_nat, print_int, sprintf, strtok_next, text_of}
use painting_cps.CText.Decimal.{print_nat-AllDigits, print_nat-ne-nil, to_int-print_nat}
use painting_cps.CText.Tokens.{AllDigits-IsPlain, strtok-last}
use painting_cps.CText.Copies.{sprintf-fits, drop-replicate}
use painting_cps.MsgDistributor.State.{Host, MsgDistributor, Method, max_chunk, buffer_size}
use painting_cps.MsgDistributor.Frames.Laws.{length-print_nat-le}
use painting_cps.MsgDistributor.Methods.{listen, classify, on_close, close, unopened}
use painting_cps.MsgDistributor.Protocol.{listen-word, word_token}
use painting_cps.MsgDistributor.Effects.{close-unknown, close-passive}
use painting_cps.MsgDistributor.Invariant.{Inv}
use painting_cps.MsgDistributor.Refinement.Messages.{opened_ne}
use painting_cps.MsgDistributor.Invariant.Tables.{Maps-close}

abbrev pub stop_text : ℤ → Bytes
stop_text id = codes "close," ++ print_int id

-- The array `content`, which is zeroed for every element.
unfoldable pub stop_message : ℤ → Result Bytes
stop_message id = sprintf (replicate buffer_size 0) (stop_text id)

-- The loop over the set.
unfoldable pub stop_messages : List ℤ → Result (List Bytes)
unfolding stop_message
stop_messages [] = ok []
stop_messages (id ∷ id_set) =
    bind (stop_message id)
      λ content. bind (stop_messages id_set) λ contents. ok (content ∷ contents)

-- The messages to the server.
unfoldable pub client_stop : Bool → List ℤ → Result (List Bytes)
client_stop orbit id_set = if orbit then stop_messages id_set else ok []

abbrev zeros_behind : Bytes → Bytes
zeros_behind text = replicate (buffer_size - length text - 1) 0

-- What stands in the array.
abbrev padded : ℕ → Bytes
padded id = codes "close" ++ b',' ∷ (print_nat id ++ 0 ∷ zeros_behind (stop_text (pos id)))

length-stop_text : (id : ℕ) → id < 2 ^ 31 → length (stop_text (pos id)) < 20
unfolding print_int
length-stop_text id small = omega (arith, length-print_nat-le id small)

stop_message_lem : (id : ℕ) → id < 2 ^ 31 → stop_message (pos id) ≡ ok (padded id)
unfolding stop_message print_int
stop_message_lem id small =
    let text = stop_text (pos id) in
    let room = length-stop_text id small in
    sprintf-fits (replicate buffer_size 0) text
      (omega (arith, length-replicate {A = ℕ} buffer_size 0, room))
    ∙ ap (λ (t : Bytes). ok (text ++ 0 ∷ t))
        (drop-replicate (length text + 1) buffer_size (buffer_size - length text - 1) 0
          (omega (arith, room)))

padded-fits : (id : ℕ) → id < 2 ^ 31 → length (padded id) ≤ max_chunk
unfolding print_int
padded-fits id small = omega (
  arith,
  length-append (print_nat id) (0 ∷ zeros_behind (stop_text (pos id))),
  length-replicate {A = ℕ} (buffer_size - length (stop_text (pos id)) - 1) 0,
  length-print_nat-le id small,
)

-- The id needs no comma behind it.
listen-stop_message :
    (host : Host) (d : MsgDistributor) (id : ℕ)
    → d.mfsockid ≢ minus_one
    → id < 2 ^ 31
    → listen host (some (padded id)) d ≡ (close host (pos id) true >> pure (pos 0)) d
unfolding classify on_close strtok_next text_of word_token print_int
listen-stop_message host d id opened small =
    let tail = zeros_behind (stop_text (pos id)) in
    rw (
      listen-word host d (codes "close") (print_nat id ++ 0 ∷ tail) opened (cc) (omega arith)
          (padded-fits id small),
      append_assoc (print_nat id) (0 ∷ tail) _,
      strtok-last b',' 6 (print_nat id) _ (omega arith) (print_nat-ne-nil id)
          (AllDigits-IsPlain (print_nat id) (print_nat-AllDigits id)),
      to_int-print_nat id small,
    )

-- The messages arrive one after another.
abbrev pub listen_all : Host → List Bytes → Method (Unit {0})
listen_all host [] = pure tt
listen_all host (m ∷ ms) = do listen host (some m); listen_all host ms

abbrev pub ids : List ℕ → List ℤ
ids [] = []
ids (i ∷ is) = pos i ∷ ids is

abbrev pub AllSmall : List ℕ → Type 0
AllSmall [] = Unit {0}
AllSmall (i ∷ is) = (i < 2 ^ 31) × AllSmall is

-- The queue of an id behind the messages for some ids.
abbrev pub without : List ℕ → ℤ → Option (List Bytes) → Option (List Bytes)
without [] j q = q
without (i ∷ is) j q = without is j (if beq_ℤ (pos i) j then none else q)

module _ (host : Host) where
  closed_one :
      {d : MsgDistributor} (v : Inv d) (id : ℕ)
      → unopened d ≡ false
      → (r : ℤ) × (e : MsgDistributor) × (close host (pos id) true d ≡ done r e)
        × Inv e
        × (unopened e ≡ false)
        × ((j : ℤ) → find j e.queue_map ≡ (if beq_ℤ (pos id) j then none else find j d.queue_map))
  closed_one {d} v id opened = elim (Option-cases (find (pos id) d.sem_map)) [
    | inl e ↦ (
      minus_one,
      d,
      close-unknown host d (pos id) true opened e,
      v,
      opened,
      λ j. unchanged j (v.maps.closed (pos id) e),
    )
    | inr (p, e) ↦
        let (q, fq, fs, ft) = v.maps.opened (pos id) p e in
        (
          pos 0,
          _,
          close-passive host d (pos id) p (length q) opened v.map_free e fs,
          record {
            maps = Maps-close v.maps (pos id) p (suc (length q)) e;
            answered = v.answered;
            map_free = refl;
            send_free = v.send_free;
            running = v.running;
          },
          opened,
          λ j. find-erase (pos id) j d.queue_map,
        )
  ]
    where
      unchanged :
          (j : ℤ)
          → find (pos id) d.queue_map ≡ none
          → find j d.queue_map ≡ (if beq_ℤ (pos id) j then none else find j d.queue_map)
      unchanged j gone = elim (key_cases (pos id) j) [
        | inl same ↦ ground (arith, gone, ap (λ k. find k d.queue_map) same)
        | inr other ↦ ground (arith, other, beq_ℤ_iff (pos id) j)
      ]

  pub listen_all-client_stop :
      (d : MsgDistributor) (is : List ℕ)
      → Inv d
      → unopened d ≡ false
      → AllSmall is
      → (contents : List Bytes) × (e : MsgDistributor) × (client_stop true (ids is) ≡ ok contents)
        × (listen_all host contents d ≡ done tt e)
        × Inv e
        × ((j : ℤ) → find j e.queue_map ≡ without is j (find j d.queue_map))
  unfolding client_stop stop_messages
  listen_all-client_stop d [] v opened small = ([], d, refl, refl, v, λ j. refl)
  listen_all-client_stop d (i ∷ is) v opened (small, others) =
      let (r, e, closed, w, still, now) = closed_one v i opened in
      let (contents, f, sent, heard, final, left) = listen_all-client_stop e is w still others in
      (
        padded i ∷ contents,
        f,
        rw (stop_message_lem i small, sent) refl,
        rw (listen-stop_message host d i (opened_ne d opened) small, closed) heard,
        final,
        λ j. left j ∙ ap (without is j) (now j),
      )
