-- ===== src/Exec.antt =====
-- How a call of the C++ code ends: it returns, it ends the process, it waits, or its behaviour is
-- undefined. Pure parts give a `Result`, the methods are actions `Exec S A` on a state.
use painting_cps.Prelude.{◌≡◌, refl, ◌⊎◌, inl, inr, ℤ, Option, none, some}

-- What is undefined behaviour in the source, or an exception that nobody catches.
pub data Fault : Type 0 where
  null_pointer int_overflow out_of_bounds unterminated empty_queue out_of_range out_of_fuel : Fault

pub data Result {ℓ} (A : Type ℓ) : Type ℓ where
  ok : A → Result A
  fault : Fault → Result A

abbrev pub bind {ℓ κ} : {A : Type ℓ} {B : Type κ} → Result A → (A → Result B) → Result B
bind (ok a) f = f a
bind (fault e) f = fault e

pub data Outcome {ℓ} (S A : Type ℓ) : Type ℓ where
  -- the call goes on with a value
  done : A → S → Outcome S A
  -- `exit(code)`
  exits : ℤ → S → Outcome S A
  -- the thread waits for a semaphore or a mutex; nothing was changed by the wait
  waits : S → Outcome S A
  faults : Fault → Outcome S A

abbrev pub Exec {ℓ} : Type ℓ → Type ℓ → Type ℓ
Exec S A = S → Outcome S A

module _ {ℓ} {S A B : Type ℓ} where
  abbrev pub continue : Outcome S A → (A → Exec S B) → Outcome S B
  continue (done a s) f = f a s
  continue (exits n s) f = exits n s
  continue (waits s) f = waits s
  continue (faults e) f = faults e

  infixl 5 ◌>>=◌ ◌>>◌
  abbrev pub ◌>>=◌ : Exec S A → (A → Exec S B) → Exec S B
  ◌>>=◌ m f s = continue (m s) f

  abbrev pub ◌>>◌ : Exec S A → Exec S B → Exec S B
  ◌>>◌ m k s = continue (m s) (λ _. k)

module _ {ℓ} {S A : Type ℓ} where
  abbrev pub pure : A → Exec S A
  pure a s = done a s

  abbrev pub exit : ℤ → Exec S A
  exit n s = exits n s

  abbrev pub undefined : Fault → Exec S A
  undefined e s = faults e

  abbrev pub lift : Result A → Exec S A
  lift (ok a) s = done a s
  lift (fault e) s = faults e

  -- a pointer that is dereferenced
  abbrev pub deref : Option A → Exec S A
  deref none s = faults null_pointer
  deref (some a) s = done a s

-- To split on a computed result and keep the equation.
pub Result-cases {ℓ} :
    {A : Type ℓ} (r : Result A) → ((a : A) × (r ≡ ok a)) ⊎ ((e : Fault) × (r ≡ fault e))
Result-cases (ok a) = inl (a, refl)
Result-cases (fault e) = inr (e, refl)
