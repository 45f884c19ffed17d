-- ===== src/Metrics.antt =====
-- The request counters of server/Metrics.cpp. A load is given in hundredths, with
-- `max_num_of_requests` at its value 100.
use painting_cps.Prelude.{
  ℕ, ◌+◌, ◌-◌, ◌≤◌, ◌≡◌, ℤ, pos, negsuc, int_max, List, [], ◌∷◌, ltb, leb, ◌==◌, if◌then◌else◌,
  arith,
}
use painting_cps.Exec.{Result, ok, fault, bind, int_overflow}

pub record Metrics : Type 0 where
  pub request_submitted : ℕ
  pub request_finished : ℕ

abbrev pub max_num_of_requests : ℕ
max_num_of_requests = 100

unfoldable pub new_metrics : Metrics
new_metrics = record { request_submitted = 0; request_finished = 0 }

unfoldable pub submit_request : Metrics → Result Metrics
submit_request m =
    if ltb m.request_submitted int_max
    then ok (record m { request_submitted = m.request_submitted + 1 })
    else fault int_overflow

unfoldable pub finish_request : Metrics → Result Metrics
finish_request m =
    if ltb m.request_finished int_max
    then ok (record m { request_finished = m.request_finished + 1 })
    else fault int_overflow

unfoldable pub get_num_ongoing : Metrics → ℤ
get_num_ongoing m =
    if leb m.request_finished m.request_submitted
    then pos (m.request_submitted - m.request_finished)
    else negsuc (m.request_finished - m.request_submitted - 1)

-- `curNum / 100.0` is `curNum` hundredths.
unfoldable pub load_of : ℤ → ℤ
load_of (pos n) = if leb max_num_of_requests n then pos 100 else pos n
load_of (negsuc n) = negsuc n

unfoldable pub get_metrics : Metrics → ℤ
get_metrics m = if m.request_submitted == 0 then pos 0 else load_of (get_num_ongoing m)

pub data Event : Type 0 where
  submitted finished : Event

abbrev pub apply : Metrics → List Event → Result Metrics
apply m [] = ok m
apply m (submitted ∷ es) = bind (submit_request m) (λ n. apply n es)
apply m (finished ∷ es) = bind (finish_request m) (λ n. apply n es)

abbrev pub submits : List Event → ℕ
submits [] = 0
submits (submitted ∷ es) = 1 + submits es
submits (finished ∷ es) = submits es

abbrev pub finishes : List Event → ℕ
finishes [] = 0
finishes (submitted ∷ es) = finishes es
finishes (finished ∷ es) = 1 + finishes es

counted :
    (m : Metrics) (es : List Event) (s f : ℕ)
    → s ≡ m.request_submitted + submits es
    → f ≡ m.request_finished + finishes es
    → s ≤ int_max
    → f ≤ int_max
    → apply m es ≡ ok (record { request_submitted = s; request_finished = f })
unfolding submit_request finish_request
counted m [] s f es ef hs hf = ground arith
counted m (submitted ∷ es) s f e₁ e₂ hs hf = ground (
  arith,
  counted (record m { request_submitted = m.request_submitted + 1 }) es s f (omega (arith, e₁))
      (omega (arith, e₂)) hs hf,
)
counted m (finished ∷ es) s f e₁ e₂ hs hf = ground (
  arith,
  counted (record m { request_finished = m.request_finished + 1 }) es s f (omega (arith, e₁))
      (omega (arith, e₂)) hs hf,
)

-- After any events with at most 2^31 - 1 submissions and no more ends than submissions, the load
-- is the number of open requests in hundredths, cut off at 100.
pub get_metrics-load :
    (es : List Event)
    → submits es ≤ int_max
    → finishes es ≤ submits es
    → (m : Metrics) × (apply new_metrics es ≡ ok m)
      × (get_num_ongoing m ≡ pos (submits es - finishes es))
      × (get_metrics m ≡ (
          if leb 100 (submits es - finishes es) then pos 100 else pos (submits es - finishes es)))
unfolding new_metrics get_num_ongoing get_metrics load_of
get_metrics-load es s f = (
  record { request_submitted = submits es; request_finished = finishes es },
  counted (record { request_submitted = 0; request_finished = 0 }) es (submits es) (finishes es)
      (omega arith) (omega arith) s (omega (arith, s, f)),
  ground arith,
  ground arith,
)
