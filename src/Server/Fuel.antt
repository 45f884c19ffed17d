-- ===== src/Server/Fuel.antt =====
-- The loop that accepts connections ends or waits.
use painting_cps.Prelude.{
  ℕ, zero, suc, ◌<◌, ◌≢◌, ℤ, true, false, List, [], ◌∷◌, ◌++◌, arith, length, is_neg, beq_ℤ,
  minus_one, Bool, ◌||◌, Bool-cases, inl, inr,
}
use painting_cps.Exec.{faults, Fault}
use painting_cps.Calls.{Call, accept_on, start_thread, Reply, Net}
use painting_cps.Server.{accept_rounds, accept_loop}

accept_rounds-ne-faults :
    (fuel : ℕ) (fd : ℤ) (replies : List Reply) (trace : List Call) (stop : Bool) (e : Fault)
    → length replies < fuel
    → accept_rounds fuel fd (record { replies = replies; trace = trace; global_stop = stop })
      ≢ faults e
unfolding accept_rounds
accept_rounds-ne-faults zero fd replies trace stop e h = absurd (omega (arith, h))
accept_rounds-ne-faults (suc fuel) fd replies trace true e h = λ f. cc
accept_rounds-ne-faults (suc fuel) fd [] trace false e h = λ f. cc
accept_rounds-ne-faults (suc fuel) fd (r ∷ []) trace false e h =
    let again =
      accept_rounds-ne-faults fuel fd [] (trace ++ accept_on fd ∷ []) r.stops e
        (omega (arith, h)) in
    elim (Bool-cases (is_neg r.ret)) [
      | inl negative ↦ rw negative again
      | inr socket ↦ rw socket (λ f. cc)
    ]
accept_rounds-ne-faults (suc fuel) fd (r ∷ c ∷ replies) trace false e h =
    let refused =
      accept_rounds-ne-faults fuel fd (c ∷ replies) (trace ++ accept_on fd ∷ []) r.stops e
        (omega (arith, h)) in
    let started =
      accept_rounds-ne-faults fuel fd replies
        ((trace ++ accept_on fd ∷ []) ++ start_thread r.ret ∷ []) (r.stops || c.stops) e
        (omega (arith, h)) in
    elim (Bool-cases (is_neg r.ret)) [
      | inl negative ↦ rw negative refused
      | inr socket ↦ elim (Bool-cases (beq_ℤ c.ret minus_one)) [
        | inl failed ↦ rw (socket, failed) (λ f. cc)
        | inr created ↦ rw (socket, created) started
      ]
    ]

-- Whatever the calls answer, the fuel of the loop is enough: it ends or waits for another answer.
pub accept_loop-ne-faults : (fd : ℤ) (s : Net) (e : Fault) → accept_loop fd s ≢ faults e
accept_loop-ne-faults fd s e =
    accept_rounds-ne-faults (suc (length s.replies)) fd s.replies s.trace s.global_stop e
      (omega arith)
