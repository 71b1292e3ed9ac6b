-- ===== src/Balance/Ledger/Views.antt =====
-- What the updates of the repository are in the ledger.
use nestjs_homework.Base.{
  ℕ, false, some, List, [], ◌∷◌, ◌++◌, ◌==◌, ◌&&◌, ◌||◌, ◌≡◌, ◌≢◌, ◌⊎◌, refl, arith, inl, inr, find,
  map, is_some, Option-cases, Bool-cases,
}
use mathlib.Core.Path.{fun_ext}
use mathlib.Core.Option
use nestjs_homework.Base.Int.{ℤ, pos}
use nestjs_homework.Contracts.{Uuid, CurrencyCode}
use nestjs_homework.Outbox.{ProcessedEvent, has_key}
use nestjs_homework.Balance.{Balance}
use nestjs_homework.Balance.Repository.{of_account}
use nestjs_homework.Balance.Rows.{DistinctIds, find-add_amount}
use nestjs_homework.Balance.Effects.{credited}
use nestjs_homework.Balance.Funds.{ids_differ}
use nestjs_homework.Balance.Ledger.{Entries, entry_of, emptied, add_to, with_key}

abbrev pub entries : List Balance → Entries
entries rows x c = Option.map entry_of (find (of_account x c) rows)

elsewhere : (x y : ℕ) (c k : ℕ) → (x == y && c == k) ≡ false → (x ≢ y) ⊎ (c ≢ k)
elsewhere x y c k h = elim (Bool-cases (x == y)) [
  | inl same ↦ inr (λ e. ground arith)
  | inr other ↦ inl (λ e. ground arith)
]

entry-credited :
    (x y : Uuid) (c k : CurrencyCode) (delta : ℤ) (rows : List Balance) (b : Balance)
    → DistinctIds rows
    → find (of_account x c) rows ≡ some b
    → entries (credited delta b.id rows) y k ≡ add_to x c delta (entries rows) y k
entry-credited x y c k delta rows b d found = elim (Bool-cases (y == x && k == c)) [
  | inl here ↦ ground (arith, find-add_amount y k b.id delta rows d)
  | inr there ↦ elim (Option-cases (find (of_account y k) rows)) [
    | inl e ↦ ground (arith, find-add_amount y k b.id delta rows d)
    | inr (w, e) ↦ ground (
      arith,
      find-add_amount y k b.id delta rows d,
      ids_differ y x k c rows w b d (elsewhere y x k c there) e found,
    )
  ]
]

-- A credit of the row of an account adds to its entry.
pub entries-credited :
    (x : Uuid) (c : CurrencyCode) (delta : ℤ) (rows : List Balance) (b : Balance)
    → DistinctIds rows
    → find (of_account x c) rows ≡ some b
    → entries (credited delta b.id rows) ≡ add_to x c delta (entries rows)
entries-credited x c delta rows b d found =
    fun_ext λ y. fun_ext λ k. entry-credited x y c k delta rows b d found

seen_one :
    (k : Uuid) (e : ProcessedEvent) (rows : List ProcessedEvent)
    → is_some (find (has_key k) (rows ++ e ∷ []))
      ≡ (k == e.idempotency_key || is_some (find (has_key k) rows))
seen_one k e [] = ground arith
seen_one k e (x ∷ rows) = ground (arith, seen_one k e rows)

-- A key that is recorded is added to the keys.
pub seen-append :
    (e : ProcessedEvent) (rows : List ProcessedEvent)
    → (λ k. is_some (find (has_key k) (rows ++ e ∷ [])))
      ≡ with_key e.idempotency_key (λ k. is_some (find (has_key k) rows))
seen-append e rows = fun_ext λ k. seen_one k e rows

entry-reset :
    (x : Uuid) (c : CurrencyCode) (rows : List Balance)
    → entries (map {A = Balance} (λ b. record b { amount = pos 0 }) rows) x c
      ≡ Option.map emptied (entries rows x c)
entry-reset x c [] = refl
entry-reset x c (b ∷ rows) = ground (arith, entry-reset x c rows)

pub entries-reset :
    (rows : List Balance)
    → entries (map {A = Balance} (λ b. record b { amount = pos 0 }) rows)
      ≡ (λ x c. Option.map emptied (entries rows x c))
entries-reset rows = fun_ext λ x. fun_ext λ c. entry-reset x c rows
