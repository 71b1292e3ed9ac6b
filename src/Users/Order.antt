-- ===== src/Users/Order.antt =====
-- `orderBy: { createdAt: 'asc' }` of apps/user-service/src/core/repositories/users.repository.ts: the rows of the
-- query stand in the order in which their accounts were created.
use nestjs_homework.Base.{ℕ, List, [], ◌∷◌, ◌≤◌, map, leb, All, Bool-cases, inl, inr, arith}
use nestjs_homework.Account.{Account}
use nestjs_homework.Users.{UserDb, UserRow}
use nestjs_homework.Users.Repository.{insert_by_created, order_by_created, user_row}

abbrev IsOrdered : List Account → Type 0
IsOrdered [] = Unit
IsOrdered (a ∷ accounts) = All (λ x. a.created_at ≤ x.created_at) accounts × IsOrdered accounts

-- The earliest row first.
abbrev pub IsInOrder : List UserRow → Type 0
IsInOrder [] = Unit
IsInOrder (u ∷ us) = All (λ x. u.created_at ≤ x.created_at) us × IsInOrder us

after_insert :
    (m : ℕ) (a : Account) (accounts : List Account)
    → m ≤ a.created_at
    → All (λ x. m ≤ x.created_at) accounts
    → All (λ x. m ≤ x.created_at) (insert_by_created a accounts)
unfolding insert_by_created
after_insert m a [] le h = (le, tt)
after_insert m a (x ∷ accounts) le h = ground (arith, after_insert m a accounts le h.1)

later :
    (m n : ℕ) (accounts : List Account)
    → m ≤ n
    → All (λ x. n ≤ x.created_at) accounts
    → All (λ x. m ≤ x.created_at) accounts
later m n [] le h = tt
later m n (x ∷ accounts) le h = (omega arith, later m n accounts le h.1)

insert_by_created-IsOrdered :
    (a : Account) (accounts : List Account)
    → IsOrdered accounts
    → IsOrdered (insert_by_created a accounts)
unfolding insert_by_created
insert_by_created-IsOrdered a [] h = (tt, tt)
insert_by_created-IsOrdered a (x ∷ accounts) h = elim (Bool-cases (leb a.created_at x.created_at)) [
  | inl le ↦ rw le ((ground arith, later a.created_at x.created_at accounts (ground arith) h.0), h)
  | inr gt ↦ rw gt (
    after_insert x.created_at a accounts (ground arith) h.0,
    insert_by_created-IsOrdered a accounts h.1,
  )
]

order_by_created-IsOrdered : (accounts : List Account) → IsOrdered (order_by_created accounts)
unfolding order_by_created
order_by_created-IsOrdered [] = tt
order_by_created-IsOrdered (a ∷ accounts) =
    insert_by_created-IsOrdered a (order_by_created accounts) (order_by_created-IsOrdered accounts)

rows_later :
    (db : UserDb) (m : ℕ) (accounts : List Account)
    → All (λ x. m ≤ x.created_at) accounts
    → All (λ x. m ≤ x.created_at) (map (user_row db) accounts)
unfolding user_row
rows_later db m [] h = tt
rows_later db m (a ∷ accounts) h = (h.0, rows_later db m accounts h.1)

map-IsInOrder :
    (db : UserDb) (accounts : List Account)
    → IsOrdered accounts
    → IsInOrder (map (user_row db) accounts)
unfolding user_row
map-IsInOrder db [] h = tt
map-IsInOrder db (a ∷ accounts) h =
    (rows_later db a.created_at accounts h.0, map-IsInOrder db accounts h.1)

pub ordered-IsInOrder :
    (db : UserDb) (accounts : List Account)
    → IsInOrder (map (user_row db) (order_by_created accounts))
ordered-IsInOrder db accounts =
    map-IsInOrder db (order_by_created accounts) (order_by_created-IsOrdered accounts)
