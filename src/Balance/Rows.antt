-- ===== src/Balance/Rows.antt =====
-- How the balance rows are found: by id, by account and currency, and among the rows that a
-- transfer locks.
use nestjs_homework.Base.{
  Bool, true, none, some, List, [], ◌∷◌, ◌≡◌, refl, ◌==◌, ◌&&◌, ◌∙◌, find, filter, elem, arith,
  Option-cases, inl, inr, if◌then◌else◌,
}
use nestjs_homework.Base.Int.{ℤ}
use nestjs_homework.Base.Table.{update_first}
use nestjs_homework.Contracts.{Uuid, CurrencyCode}
use nestjs_homework.Balance.{Balance, BalanceDb}
use nestjs_homework.Balance.Repository.{
  of_account, has_id, add_amount, find_balance, insert_by_account, order_by_account, sort_pair,
  locked_balances,
}

-- The primary key: no two rows have one id.
abbrev pub DistinctIds : List Balance → Type 0
DistinctIds [] = Unit
DistinctIds (b ∷ rows) = (find (has_id b.id) rows ≡ none) × DistinctIds rows

abbrev of_id_of_account : Uuid → Balance → Bool
of_id_of_account account b = b.account_id == account

find-insert_by_account :
    (x : Uuid) (b : Balance) (rows : List Balance)
    → find (of_id_of_account x) (insert_by_account b rows) ≡ find (of_id_of_account x) (b ∷ rows)
unfolding insert_by_account
find-insert_by_account x b [] = refl
find-insert_by_account x b (y ∷ rows) = ground (arith, find-insert_by_account x b rows)

find-order_by_account :
    (x : Uuid) (rows : List Balance)
    → find (of_id_of_account x) (order_by_account rows) ≡ find (of_id_of_account x) rows
unfolding order_by_account
find-order_by_account x [] = refl
find-order_by_account x (y ∷ rows) =
    ground (arith, find-insert_by_account x y (order_by_account rows), find-order_by_account x rows)

abbrev is_locked : Uuid → Uuid → CurrencyCode → Balance → Bool
is_locked first second currency b =
    elem b.account_id (first ∷ second ∷ []) && b.currency == currency

find-filter_locked :
    (x first second : Uuid) (currency : CurrencyCode) (rows : List Balance)
    → elem x (first ∷ second ∷ []) ≡ true
    → find (of_id_of_account x) (filter (is_locked first second currency) rows)
      ≡ find (of_account x currency) rows
find-filter_locked x first second currency [] h = refl
find-filter_locked x first second currency (b ∷ rows) h =
    ground (arith, find-filter_locked x first second currency rows h)

elem-sort_pair_left : (a b : Uuid) → elem a ((sort_pair a b).0 ∷ (sort_pair a b).1 ∷ []) ≡ true
elem-sort_pair_left a b = ground arith

elem-sort_pair_right : (a b : Uuid) → elem b ((sort_pair a b).0 ∷ (sort_pair a b).1 ∷ []) ≡ true
elem-sort_pair_right a b = ground arith

module _ (from to : Uuid) (currency : CurrencyCode) (db : BalanceDb) where
  -- Among the locked rows the sender is the row that `findBalance` finds.
  pub find_sender :
      find (λ b. b.account_id == from) (locked_balances from to currency db)
      ≡ find_balance from currency db
  unfolding locked_balances find_balance
  find_sender =
      find-order_by_account from _
      ∙ find-filter_locked from (sort_pair from to).0 (sort_pair from to).1 currency db.balances
          (elem-sort_pair_left from to)

  pub find_receiver :
      find (λ b. b.account_id == to) (locked_balances from to currency db)
      ≡ find_balance to currency db
  unfolding locked_balances find_balance
  find_receiver =
      find-order_by_account to _
      ∙ find-filter_locked to (sort_pair from to).0 (sort_pair from to).1 currency db.balances
          (elem-sort_pair_right from to)

-- A row that is found by its account stands under an id of its own.
pub find-has_id :
    (x : Uuid) (c : CurrencyCode) (rows : List Balance) (b : Balance)
    → DistinctIds rows
    → find (of_account x c) rows ≡ some b
    → find (has_id b.id) rows ≡ some b
find-has_id x c [] b d h = cc
find-has_id x c (y ∷ rows) b d h = ground (arith, find-has_id x c rows b d.1)

pub find-add_amount :
    (x : Uuid) (c : CurrencyCode) (id : Uuid) (delta : ℤ) (rows : List Balance)
    → DistinctIds rows
    → find (of_account x c) (update_first (has_id id) (add_amount delta) rows)
      ≡ elim (find (of_account x c) rows) [
        | none ↦ none
        | some b ↦ if b.id == id then some (add_amount delta b) else some b
      ]
unfolding update_first
find-add_amount x c id delta [] d = refl
find-add_amount x c id delta (y ∷ rows) d = elim (Option-cases (find (of_account x c) rows)) [
  | inl e ↦ ground (arith, find-add_amount x c id delta rows d.1, e)
  | inr (b, e) ↦ ground (arith, find-add_amount x c id delta rows d.1, find-has_id x c rows b d.1 e)
]
