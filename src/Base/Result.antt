-- ===== src/Base/Result.antt =====
-- A call that may throw, and the body of a database transaction.
use mathlib.Core.Path.{◌≡◌, refl}
use mathlib.Core.Logic.{◌⊎◌, inl, inr}
use mathlib.Core.Bool.{Bool, true, false}
use mathlib.Core.Option.{Option, none, some}
use native.Mathlib.Omega.{arith}

pub data Result (E A : Type 0) : Type 0 where
  ok : A → Result E A
  err : E → Result E A

-- The callback of `$transaction(async tx => …)`: what it throws leaves no state behind.
abbrev pub Tx : Type 0 → Type 0 → Type 0 → Type 0
Tx E S A = S → Result E (A × S)

module _ {E S A : Type 0} where
  abbrev pub pure : A → Tx E S A
  pure a s = ok (a, s)

  abbrev pub throw : E → Tx E S A
  throw e s = err e

  -- What a query reads.
  abbrev pub gets : (S → A) → Tx E S A
  gets f s = ok (f s, s)

  abbrev pub or_throw : Option A → E → Tx E S A
  or_throw none e s = err e
  or_throw (some a) e s = ok (a, s)

  -- `$transaction`: commits the new state, or rolls back to the old one and throws on.
  unfoldable pub transact : Tx E S A → S → Result E A × S
  transact m s = elim (m s) [ ok (a, s') ↦ (ok a, s') | err e ↦ (err e, s) ]

  -- A transaction that throws has changed nothing.
  pub transact_rollback :
      (m : Tx E S A) (s : S) (e : E) → (transact m s).0 ≡ err e → (transact m s).1 ≡ s
  unfolding transact
  transact_rollback m s e h = ground arith

module _ {E S : Type 0} where
  abbrev pub throw_if : Bool → E → Tx E S (Unit {0})
  throw_if true e s = err e
  throw_if false e s = ok (tt, s)

module _ {E S A B : Type 0} where
  infixl 5 ◌>>=◌ ◌>>◌
  abbrev pub ◌>>=◌ : Tx E S A → (A → Tx E S B) → Tx E S B
  ◌>>=◌ m f s = elim (m s) [ ok (a, s') ↦ f a s' | err e ↦ err e ]

  abbrev pub ◌>>◌ : Tx E S A → Tx E S B → Tx E S B
  m >> n = m >>= λ _. n

pub Result-cases :
    {E A : Type 0} (r : Result E A) → ((a : A) × (r ≡ ok a)) ⊎ ((e : E) × (r ≡ err e))
Result-cases (ok a) = inl (a, refl)
Result-cases (err e) = inr (e, refl)

-- Either the body commits or its state is dropped.
pub transact_cases :
    {E S A : Type 0} (m : Tx E S A) (s : S)
    → ((p : A × S) × (m s ≡ ok p) × (transact m s ≡ (ok p.0, p.1)))
      ⊎ ((e : E) × (m s ≡ err e) × (transact m s ≡ (err e, s)))
unfolding transact
transact_cases m s = elim (Result-cases (m s)) [
  | inl (p, e) ↦ inl (p, e, ground arith)
  | inr (x, e) ↦ inr (x, e, ground arith)
]
