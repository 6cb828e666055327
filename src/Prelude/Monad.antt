-- ===== src/Prelude/Monad.antt =====
-- Go's error values and the actions that change a state: a call returns a value, an error, or
-- panics; what it wrote before an error stays written.
use Prim.Native.Nat.{ℕ}
use Prim.Native.String.{String}

-- An error: the two kinds that the code tells apart, a text, and `fmt.Errorf("text: %s", err)`.
pub data Error : Type 0 where
  not_found conflict : Error
  message : String → Error
  wrapped : String → Error → Error

pub data Result (A : Type 0) : Type 0 where
  ok : A → Result A
  err : Error → Result A
  panic : Result A

abbrev pub Action : Type 0 → Type 0 → Type 0
Action S A = S → Result A × S

module _ {S A : Type 0} where
  abbrev pub pure : A → Action S A
  pure a s = (ok a, s)

  abbrev pub fail : Error → Action S A
  fail e s = (err e, s)

  abbrev pub crash : Action S A
  crash s = (panic, s)

  abbrev pub of_result : Result A → Action S A
  of_result r s = (r, s)

  abbrev pub gets : (S → A) → Action S A
  gets f s = (ok (f s), s)

-- `a, err := m(); if err != nil { return err }`
abbrev pub and_then : {S A B : Type 0} → (A → Action S B) → Result A × S → Result B × S
and_then f (ok a, s) = f a s
and_then f (err e, s) = (err e, s)
and_then f (panic, s) = (panic, s)

infixl 5 ◌>>=◌ ◌>>◌
abbrev pub ◌>>=◌ : {S A B : Type 0} → Action S A → (A → Action S B) → Action S B
◌>>=◌ m f s = and_then f (m s)

abbrev pub ◌>>◌ : {S B : Type 0} → Action S (Unit {0}) → Action S B → Action S B
m >> k = m >>= λ _. k

abbrev pub modify : {S : Type 0} → (S → S) → Action S (Unit {0})
modify f s = (ok tt, f s)

-- `a, err := m()`, with the error looked at by what follows
pub data Outcome (A : Type 0) : Type 0 where
  value : A → Outcome A
  error : Error → Outcome A

abbrev pub outcome_of : {S A : Type 0} → Result A × S → Result (Outcome A) × S
outcome_of (ok a, s) = (ok (value a), s)
outcome_of (err e, s) = (ok (error e), s)
outcome_of (panic, s) = (panic, s)

abbrev pub attempt : {S A : Type 0} → Action S A → Action S (Outcome A)
attempt m s = outcome_of (m s)

-- `if err != nil { return err }` after such a call
abbrev pub of_outcome : {S A : Type 0} → Outcome A → Action S A
of_outcome (value a) = pure a
of_outcome (error e) = fail e

-- an error is replaced by another, built from it
abbrev pub error_mapped : {S A : Type 0} → (Error → Error) → Result A × S → Result A × S
error_mapped f (ok a, s) = (ok a, s)
error_mapped f (err e, s) = (err (f e), s)
error_mapped f (panic, s) = (panic, s)

abbrev pub map_error : {S A : Type 0} → (Error → Error) → Action S A → Action S A
map_error f m s = error_mapped f (m s)

-- an error is only logged
abbrev pub error_ignored : {S : Type 0} → Result (Unit {0}) × S → Result (Unit {0}) × S
error_ignored (ok a, s) = (ok tt, s)
error_ignored (err e, s) = (ok tt, s)
error_ignored (panic, s) = (panic, s)

abbrev pub ignore : {S : Type 0} → Action S (Unit {0}) → Action S (Unit {0})
ignore m s = error_ignored (m s)

-- How a process ends.
pub data Exit : Type 0 where
  returned : Exit
  exited : ℕ → Exit
