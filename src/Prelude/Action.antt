-- ===== src/Prelude/Action.antt =====
-- Calls that read and write a state and may throw. A throw leaves what was written before it;
-- `transaction` is `knex.transaction`, which puts the state back when its body throws.
-- The classes of error are those of lib/api/errors.js; a message is kept without the values
-- that the source interpolates into it.
use Prim.Native.String.{String}
use mathlib.Core.Path.{◌≡◌, refl}
use mathlib.Core.Logic.{◌⊎◌, inl, inr}
use mathlib.Core.Bool.{Bool, true, false}
use native.Mathlib.Omega.{arith}
use mathlib.Core.Option.{Option, none, some}

pub data Error : Type 0 where
  app_error bad_request http_unauthorized http_forbidden : String → Error
  -- a TypeError, or an Error of no class of errors.js
  js_error : String → Error
  -- a constraint of the database is violated
  db_error : String → Error

pub data Result (A : Type 0) : Type 0 where
  ok : A → Result A
  err : Error → Result A

abbrev pub Action : Type 0 → Type 0 → Type 0
Action S A = S → Result A × S

module _ {S : Type 0} {A : Type 0} where
  abbrev pub pure : A → Action S A
  pure a s = (ok a, s)

  abbrev pub throw : Error → Action S A
  throw e s = (err e, s)

  abbrev pub gets : (S → A) → Action S A
  gets f s = (ok (f s), s)

  abbrev pub or_throw : Option A → Error → Action S A
  or_throw none e = throw e
  or_throw (some a) e = pure a

  abbrev pub rolled_back : S → Result A × S → Result A × S
  rolled_back s (ok a, s') = (ok a, s')
  rolled_back s (err e, s') = (err e, s)

  abbrev pub transaction : Action S A → Action S A
  transaction m s = rolled_back s (m s)

abbrev pub throw_if : {S : Type 0} → Bool → Error → Action S (Unit {0})
throw_if true e s = (err e, s)
throw_if false e s = (ok tt, s)

abbrev pub modify : {S : Type 0} → (S → S) → Action S (Unit {0})
modify f s = (ok tt, f s)

abbrev pub bind_run : {S A B : Type 0} → Result A × S → (A → Action S B) → Result B × S
bind_run (ok a, s) f = f a s
bind_run (err e, s) f = (err e, s)

infixl 5 ◌>>=◌ ◌>>◌
abbrev pub ◌>>=◌ : {S A B : Type 0} → Action S A → (A → Action S B) → Action S B
◌>>=◌ m f s = bind_run (m s) f

abbrev pub ◌>>◌ : {S A B : Type 0} → Action S A → Action S B → Action S B
m >> k = m >>= λ _. k

-- How a call ended.
pub run_cases :
    {S A : Type 0} (r : Result A × S)
    → ((a : A) × (s : S) × (r ≡ (ok a, s))) ⊎ ((e : Error) × (s : S) × (r ≡ (err e, s)))
run_cases (ok a, s) = inl (a, s, refl)
run_cases (err e, s) = inr (e, s, refl)

-- A failed transaction leaves no trace.
pub transaction_undoes :
    {S A : Type 0} (m : Action S A) (s : S) {e : Error} {s' : S}
    → transaction m s ≡ (err e, s')
    → s' ≡ s
transaction_undoes m s h = elim (run_cases (m s)) [
  | inl (a, t, done) ↦ ground arith
  | inr (f, t, failed) ↦ ground arith
]

-- Inversion of a sequence that succeeds.
pub >>=-eq-ok :
    {S A B : Type 0} (m : Action S A) (f : A → Action S B) (s : S) {b : B} {s' : S}
    → (m >>= f) s ≡ (ok b, s')
    → (a : A) × (t : S) × (m s ≡ (ok a, t)) × (f a t ≡ (ok b, s'))
>>=-eq-ok m f s h = elim (run_cases (m s)) [
  | inl (a, t, done) ↦ (a, t, done, ground arith)
  | inr (e, t, failed) ↦ absurd (ground arith)
]

-- A transaction that succeeds is its body; so is the body of one.
pub transaction-eq-ok :
    {S A : Type 0} (m : Action S A) (s : S) {a : A} {s' : S}
    → transaction m s ≡ (ok a, s')
    → m s ≡ (ok a, s')
transaction-eq-ok m s h = elim (run_cases (m s)) [
  | inl (a, t, done) ↦ ground arith
  | inr (e, t, failed) ↦ absurd (ground arith)
]
