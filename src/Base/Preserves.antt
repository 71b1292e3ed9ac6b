-- ===== src/Base/Preserves.antt =====
-- What a transaction body does whenever it commits, as a relation between the state before and the
-- state after; one rule for each way to build a body.
use mathlib.Core.Path.{◌≡◌, sym, subst}
use mathlib.Core.Logic.{inl, inr}
use mathlib.Core.Bool.{Bool, true, false}
use mathlib.Core.Option.{Option, none, some}
use native.Mathlib.Omega.{arith}
use nestjs_homework.Base.Tests.{if◌then◌else◌}
use nestjs_homework.Base.Result.{
  Result, ok, Tx, pure, gets, or_throw, throw_if, transact, ◌>>=◌, Result-cases, transact_cases,
}

pub record Preserves {E S A : Type 0} (R : S → S → Type 0) (m : Tx E S A) : Type 0 where
  pub commits : (s s' : S) (a : A) → m s ≡ ok (a, s') → R s s'

module _ {E S : Type 0} {R : S → S → Type 0} (R-refl : (s : S) → R s s) where
  pub Preserves-pure : {A : Type 0} (a : A) → Preserves {E = E} R (pure a)
  Preserves-pure a = record {
    commits = λ s s' b h. let e : s ≡ s' = cc in subst (R s) e (R-refl s);
  }

  pub Preserves-gets : {A : Type 0} (f : S → A) → Preserves {E = E} R (gets f)
  Preserves-gets f = record {
    commits = λ s s' b h. let e : s ≡ s' = cc in subst (R s) e (R-refl s);
  }

  pub Preserves-or_throw : {A : Type 0} (o : Option A) (e : E) → Preserves R (or_throw o e)
  Preserves-or_throw none e = record { commits = λ s s' b h. cc }
  Preserves-or_throw (some a) e = Preserves-pure a

  pub Preserves-throw_if : (b : Bool) (e : E) → Preserves R (throw_if b e)
  Preserves-throw_if true e = record { commits = λ s s' b h. cc }
  Preserves-throw_if false e = Preserves-pure tt

  -- A transaction that rolls back has preserved everything too.
  pub transact-Preserves :
      {A : Type 0} (m : Tx E S A) (s : S) → Preserves R m → R s (transact m s).1
  transact-Preserves m s p = elim (transact_cases m s) [
    | inl (q, e, run) ↦
        subst (λ (out : Result E _ × S). R s out.1) (sym run) (p.commits s q.1 q.0 e)
    | inr (x, e, run) ↦ subst (λ (out : Result E _ × S). R s out.1) (sym run) (R-refl s)
  ]

pub Preserves-if :
    {E S A : Type 0} {R : S → S → Type 0} (b : Bool) (m n : Tx E S A)
    → Preserves R m
    → Preserves R n
    → Preserves R (if b then m else n)
Preserves-if true m n pm pn = pm
Preserves-if false m n pm pn = pn

pub Preserves-bind :
    {E S A B : Type 0} {R : S → S → Type 0} (trans : (s t u : S) → R s t → R t u → R s u)
    (m : Tx E S A) (f : A → Tx E S B)
    → Preserves R m
    → ((a : A) → Preserves R (f a))
    → Preserves R (m >>= f)
Preserves-bind trans m f pm pf = record {
  commits = λ s s' b h. elim (Result-cases (m s)) [
    | inl (p, e) ↦
        trans s p.1 s' (pm.commits s p.1 p.0 e) ((pf p.0).commits p.1 s' b (ground arith))
    | inr (x, e) ↦ absurd (ground arith)
  ];
}
