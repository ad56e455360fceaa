-- ===== src/Http.antt =====
-- Request handlers: the exceptions of @nestjs/common that they throw, and those that Prisma throws
-- (all answered by 500). What was written before a throw stays written, except in a transaction.
use omnia_note.Prelude.{String, Bool, true, false, Option, none, some}

pub data Exception : Type 0 where
  bad_request unauthorized forbidden not_found conflict : String → Exception
  -- Prisma P2025, P2002 and P2003, and any other Error
  record_not_found unique_violation foreign_key_violation : Exception
  internal_error : String → Exception

pub data Result {ℓ} (A : Type ℓ) : Type ℓ where
  ok : A → Result A
  err : Exception → Result A

-- How a handler ends: it returns or throws, and leaves a state.
pub data Outcome {ℓ} (S A : Type ℓ) : Type ℓ where
  returned : A → S → Outcome S A
  thrown : Exception → S → Outcome S A

abbrev pub Exec {ℓ} : Type ℓ → Type ℓ → Type ℓ
Exec S A = S → Outcome S A

module _ {ℓ} {S A : Type ℓ} where
  abbrev pub pure : A → Exec S A
  pure a s = returned a s

  abbrev pub throw : Exception → Exec S A
  throw e s = thrown e s

  abbrev pub gets : (S → A) → Exec S A
  gets f s = returned (f s) s

  -- findUniqueOrThrow, and `if (!x) throw e`
  abbrev pub or_throw : Exception → Option A → Exec S A
  or_throw e none s = thrown e s
  or_throw e (some a) s = returned a s

  abbrev pub rollback : S → Outcome S A → Outcome S A
  rollback before (returned a s) = returned a s
  rollback before (thrown e s) = thrown e before

  -- A transaction: the state at its start comes back if it throws.
  abbrev pub transaction : Exec S A → Exec S A
  transaction m s = rollback s (m s)

  abbrev pub result : Outcome S A → Result A
  result (returned a s) = ok a
  result (thrown e s) = err e

  abbrev pub state : Outcome S A → S
  state (returned a s) = s
  state (thrown e s) = s

  -- The answer of a request, and the state that it leaves.
  abbrev pub answer : Exec S A → S → Result A
  answer m s = result (m s)

  abbrev pub after : Exec S A → S → S
  after m s = state (m s)

module _ {ℓ} {S : Type ℓ} where
  abbrev pub modify : (S → S) → Exec S (Unit {ℓ})
  modify f s = returned tt (f s)

  -- `if (!b) throw e`
  abbrev pub guard : Bool → Exception → Exec S (Unit {ℓ})
  guard true e s = returned tt s
  guard false e s = thrown e s

module _ {ℓ} {S A B : Type ℓ} where
  abbrev pub continue : Outcome S A → (A → Exec S B) → Outcome S B
  continue (returned a s) f = f a s
  continue (thrown e s) f = thrown e s

  infixl 10 ◌>>=◌ ◌>>◌
  abbrev pub ◌>>=◌ : Exec S A → (A → Exec S B) → Exec S B
  ◌>>=◌ m f s = continue (m s) f

  abbrev pub ◌>>◌ : Exec S A → Exec S B → Exec S B
  m >> n = m >>= λ _. n

-- What holds of the value, if a request returns one.
abbrev pub Answered {ℓ κ} : {A : Type ℓ} → (A → Type κ) → Result A → Type κ
Answered P (ok a) = P a
Answered P (err e) = Unit
