-- ===== src/Common/Effect.antt =====
-- A method of a stateful object: it takes the state to a result, or an exception, and the state
-- that it leaves, which an exception keeps.
pub mod Keeps
use mathlib.Core.Path.{◌≡◌, ap}
use mathlib.Core.Bool.{Bool, true, false}
use mathlib.Core.Option.{Option, none, some}
use s3_storage_node.Common.Result.{Result, ok, err, ok-injective, err_ok_absurd}

abbrev pub Effect : Type 0 → Type 0 → Type 0 → Type 0
Effect E S A = S → Result E A × S

module _ {E S : Type 0} where
  -- Going on after a call.
  abbrev pub then_do : {A B : Type 0} → Result E A × S → (A → Effect E S B) → Result E B × S
  then_do (ok a, s) f = f a s
  then_do (err e, s) f = (err e, s)

  infixl 5 ◌>>=◌
  abbrev pub ◌>>=◌ : {A B : Type 0} → Effect E S A → (A → Effect E S B) → Effect E S B
  (m >>= f) s = then_do (m s) f

  abbrev pub return : {A : Type 0} → A → Effect E S A
  return a s = (ok a, s)

  abbrev pub raise : {A : Type 0} → E → Effect E S A
  raise e s = (err e, s)

  -- `if c: raise e`
  abbrev pub raise_when : Bool → E → Effect E S (Unit {0})
  raise_when true e = raise e
  raise_when false e = return tt

  abbrev pub get_state : Effect E S S
  get_state s = (ok s, s)

  abbrev pub modify : (S → S) → Effect E S (Unit {0})
  modify f s = (ok tt, f s)

  -- A value, or an exception for its absence.
  abbrev pub need : {A : Type 0} → Option A → E → Effect E S A
  need none e = raise e
  need (some a) e = return a

  pub then_do_ok :
      {A B : Type 0} (out : Result E A × S) (f : A → Effect E S B) (a : A)
      → out.0 ≡ ok a
      → then_do out f ≡ f a out.1
  then_do_ok (ok b, s) f a h = ap (λ x. f x s) (ok-injective h)
  then_do_ok (err e, s) f a h = err_ok_absurd e a h
