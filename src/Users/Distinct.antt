-- ===== src/Users/Distinct.antt =====
-- Distinct accounts stay distinct when they are filtered, ordered and selected.
use nestjs_homework.Base.{
  Bool, List, [], ◌∷◌, ◌≢◌, sym, arith, leb, map, filter, All, Bool-cases, inl, inr,
}
use nestjs_homework.Contracts.{Uuid}
use nestjs_homework.Account.{Account}
use nestjs_homework.Users.{UserDb}
use nestjs_homework.Users.Repository.{insert_by_created, order_by_created, user_row}
use nestjs_homework.Users.Cursor.{DistinctRows}

-- No two accounts have one id.
abbrev pub DistinctAccounts : List Account → Type 0
DistinctAccounts [] = Unit
DistinctAccounts (a ∷ rest) = All (λ x. a.id ≢ x.id) rest × DistinctAccounts rest

module _ (P : Account → Type 0) where
  All-filter : (p : Account → Bool) (rest : List Account) → All P rest → All P (filter p rest)
  All-filter p [] h = tt
  All-filter p (a ∷ rest) h = ground (arith, All-filter p rest h.1)

  All-insert :
      (a : Account) (rest : List Account) → P a → All P rest → All P (insert_by_created a rest)
  unfolding insert_by_created
  All-insert a [] p h = (p, tt)
  All-insert a (x ∷ rest) p h = ground (arith, All-insert a rest p h.1)

  All-order : (rest : List Account) → All P rest → All P (order_by_created rest)
  unfolding order_by_created
  All-order [] h = tt
  All-order (a ∷ rest) h = All-insert a (order_by_created rest) h.0 (All-order rest h.1)

pub filter-DistinctAccounts :
    (p : Account → Bool) (rest : List Account)
    → DistinctAccounts rest
    → DistinctAccounts (filter p rest)
filter-DistinctAccounts p [] h = tt
filter-DistinctAccounts p (a ∷ rest) h =
    ground (arith, filter-DistinctAccounts p rest h.1, All-filter (λ x. a.id ≢ x.id) p rest h.0)

insert-DistinctAccounts :
    (a : Account) (rest : List Account)
    → All (λ x. a.id ≢ x.id) rest
    → DistinctAccounts rest
    → DistinctAccounts (insert_by_created a rest)
unfolding insert_by_created
insert-DistinctAccounts a [] n h = (tt, tt)
insert-DistinctAccounts a (x ∷ rest) n h = elim (Bool-cases (leb a.created_at x.created_at)) [
  | inl le ↦ rw le (n, h)
  | inr gt ↦ rw gt (
    All-insert (λ y. x.id ≢ y.id) a rest (λ e. n.0 (sym e)) h.0,
    insert-DistinctAccounts a rest n.1 h.1,
  )
]

pub order-DistinctAccounts :
    (rest : List Account) → DistinctAccounts rest → DistinctAccounts (order_by_created rest)
unfolding order_by_created
order-DistinctAccounts [] h = tt
order-DistinctAccounts (a ∷ rest) h =
    insert-DistinctAccounts a (order_by_created rest) (All-order (λ x. a.id ≢ x.id) rest h.0)
      (order-DistinctAccounts rest h.1)

rows-apart :
    (db : UserDb) (id : Uuid) (rest : List Account)
    → All (λ x. id ≢ x.id) rest
    → All (λ x. id ≢ x.id) (map (user_row db) rest)
unfolding user_row
rows-apart db id [] h = tt
rows-apart db id (a ∷ rest) h = (h.0, rows-apart db id rest h.1)

pub map-DistinctRows :
    (db : UserDb) (rest : List Account)
    → DistinctAccounts rest
    → DistinctRows (map (user_row db) rest)
unfolding user_row
map-DistinctRows db [] h = tt
map-DistinctRows db (a ∷ rest) h = (rows-apart db a.id rest h.0, map-DistinctRows db rest h.1)
