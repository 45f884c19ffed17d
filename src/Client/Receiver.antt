-- ===== src/Client/Receiver.antt =====
-- The loop of `result_thread`: of the answers to the copies of a picture only the last is shown.
use painting_cps.Prelude.{
  ℕ, zero, suc, ◌≡◌, refl, ◌∙◌, ℤ, pos, negsuc, Bool, true, false, List, [], ◌∷◌, ◌++◌, arith,
  replicate, length, inl, inr, if◌then◌else◌, ltb, is_pos, int_max,
}
use painting_cps.Exec.{
  Result, ok, fault, bind, Exec, done, exits, ◌>>=◌, ◌>>◌, lift, Result-cases, int_overflow,
}
use painting_cps.CText.{Bytes}
use painting_cps.Results.{Shown, show_result}

-- What a receiving call brings: an error, the end of the connection, or the buffer with an answer.
pub data Arriving : Type 0 where
  broken : Arriving
  closed : Arriving
  answered : Bytes → Arriving

-- `time_queue` holds the times at which pictures were sent.
pub record Receiver (Coordinate : Type 0) : Type 0 where
  pub counter : ℤ
  pub time_queue : List ℕ
  pub shown : Shown Coordinate
  pub global_stop : Bool

-- `--counter` on an `int`.
unfoldable pub decrement : ℤ → Result ℤ
decrement (pos zero) = ok (negsuc 0)
decrement (pos (suc n)) = ok (pos n)
decrement (negsuc n) = if ltb n int_max then ok (negsuc (suc n)) else fault int_overflow

abbrev pub pop_time : Bool → List ℕ → List ℕ
pop_time consume [] = []
pop_time consume (t ∷ ts) = if consume then ts else t ∷ ts

module _ {Coordinate : Type 0} (atof : Bytes → Coordinate) (size_per_time : ℤ)
    (consume : Bool) where
  abbrev skip_copy : ℤ → Exec (Receiver Coordinate) (Unit {0})
  skip_copy left s = done tt (record s { counter = left })

  -- The last answer to a picture.
  abbrev show_last : Bytes → Exec (Receiver Coordinate) (Unit {0})
  show_last buffer s =
      (do
        shown ← lift (show_result atof s.shown buffer)
        λ t. done tt (record t {
          counter = size_per_time;
          time_queue = pop_time consume t.time_queue;
          shown = shown;
        }))
        s

  -- A round of the loop. An error of the call ends the process.
  unfoldable pub result_round : Arriving → Exec (Receiver Coordinate) (Unit {0})
  unfolding decrement
  result_round broken s = exits (pos 1) s
  result_round closed s = done tt (record s { global_stop = true })
  result_round (answered buffer) s =
      (do
        left ← lift (decrement s.counter)
        if is_pos left then skip_copy left else show_last buffer)
        s

  -- The loop, for what arrives one after another; it waits when nothing more does, so the list is
  -- what it handles before it stops.
  unfoldable pub result_loop : List Arriving → Exec (Receiver Coordinate) (Unit {0})
  unfolding result_round
  result_loop [] s = done tt s
  result_loop (a ∷ rest) s =
      let more = (result_round a >> result_loop rest) s in if s.global_stop then done tt s else more

abbrev pub pop_times : Bool → ℕ → List ℕ → List ℕ
pop_times consume zero ts = ts
pop_times consume (suc n) ts = pop_times consume n (pop_time consume ts)

-- The answers to pictures, each of which was sent `n` times.
abbrev pub repeated : ℕ → List Bytes → List Arriving
repeated n [] = []
repeated n (m ∷ ms) = replicate n (answered m) ++ repeated n ms

module _ {Coordinate : Type 0} (atof : Bytes → Coordinate) where
  -- The answers shown one after another.
  abbrev pub show_all : Shown Coordinate → List Bytes → Result (Shown Coordinate)
  show_all shown [] = ok shown
  show_all shown (m ∷ ms) = bind (show_result atof shown m) λ next. show_all next ms

module _ {Coordinate : Type 0} (atof : Bytes → Coordinate) (k : ℕ) (consume : Bool) where
  abbrev shows : Receiver Coordinate → Shown Coordinate → Receiver Coordinate
  shows s next = record s {
    counter = pos (suc k);
    time_queue = pop_time consume s.time_queue;
    shown = next;
  }

  round_skips :
      (c : ℕ) (m : Bytes) (s : Receiver Coordinate)
      → s.counter ≡ pos (suc (suc c))
      → result_round atof (pos (suc k)) consume (answered m) s
        ≡ done tt (record s { counter = pos (suc c) })
  unfolding result_round
  round_skips c m s at = ground (arith, at)

  round_shows :
      (m : Bytes) (s : Receiver Coordinate) (next : Shown Coordinate)
      → s.counter ≡ pos 1
      → show_result atof s.shown m ≡ ok next
      → result_round atof (pos (suc k)) consume (answered m) s ≡ done tt (shows s next)
  unfolding result_round
  round_shows m s next at e = ground (arith, at, e)

  loop_step :
      (a : Arriving) (rest : List Arriving) (s u : Receiver Coordinate)
      → s.global_stop ≡ false
      → result_round atof (pos (suc k)) consume a s ≡ done tt u
      → result_loop atof (pos (suc k)) consume (a ∷ rest) s
        ≡ result_loop atof (pos (suc k)) consume rest u
  unfolding result_loop
  loop_step a rest s u running e = ground (arith, running, e)

  -- The copies of one answer.
  loop_copies :
      (c : ℕ) (m : Bytes) (rest : List Arriving) (s : Receiver Coordinate) (next : Shown Coordinate)
      → s.counter ≡ pos (suc c)
      → s.global_stop ≡ false
      → show_result atof s.shown m ≡ ok next
      → result_loop atof (pos (suc k)) consume (replicate (suc c) (answered m) ++ rest) s
        ≡ result_loop atof (pos (suc k)) consume rest (shows s next)
  loop_copies zero m rest s next at running e =
      loop_step (answered m) rest s _ running (round_shows m s next at e)
  loop_copies (suc c) m rest s next at running e =
      loop_step (answered m) (replicate (suc c) (answered m) ++ rest) s _ running
        (round_skips c m s at)
      ∙ loop_copies c m rest (record s { counter = pos (suc c) }) next refl running e

  -- When every answer arrives as often as its picture was sent, at least once, the loop shows each
  -- answer once, in order, as long as all can be read; in consumption mode it takes one time off
  -- the queue for each, and it counts anew for the next picture.
  pub result_loop-repeated :
      (ms : List Bytes) (s : Receiver Coordinate) (last : Shown Coordinate)
      → s.counter ≡ pos (suc k)
      → s.global_stop ≡ false
      → show_all atof s.shown ms ≡ ok last
      → (t : Receiver Coordinate) × (result_loop atof (pos (suc k)) consume (repeated (suc k) ms) s
          ≡ done tt t)
        × (t.shown ≡ last)
        × (t.time_queue ≡ pop_times consume (length ms) s.time_queue)
        × (t.counter ≡ pos (suc k))
  unfolding result_loop
  result_loop-repeated [] s last at running e = (s, refl, ground (arith, e), refl, at)
  result_loop-repeated (m ∷ ms) s last at running e =
      elim (Result-cases (show_result atof s.shown m)) [
        | inl (next, f) ↦
            let (t, ran, shown, times, counter) =
              result_loop-repeated ms (shows s next) last refl running (rw f at e) in
            (
              t,
              loop_copies k m (repeated (suc k) ms) s next at running f ∙ ran,
              shown,
              times,
              counter,
            )
        | inr (x, f) ↦ absurd (ground (arith, f, e))
      ]
