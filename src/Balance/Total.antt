-- ===== src/Balance/Total.antt =====
-- What the operations on the balances do to the sum of all amounts.
use nestjs_homework.Base.{some, List, [], ◌∷◌, ◌≡◌, find, arith, Option-cases, inl, inr}
use nestjs_homework.Base.Int.{ℤ, pos, ◌+ℤ◌, int_laws}
use nestjs_homework.Base.Result.{Result, ok, err}
use nestjs_homework.Base.Table.{update_first}
use nestjs_homework.Contracts.{Uuid}
use nestjs_homework.Balance.{Balance, BalanceDb, Fault}
use nestjs_homework.Balance.Repository.{
  has_id, add_amount, increment_amount, create_processed, create_outbox, Fresh, DepositArgs,
  TransferArgs, credit, move_funds,
}

abbrev pub sum : List Balance → ℤ
sum [] = pos 0
sum (b ∷ rows) = b.amount +ℤ sum rows

-- All the money that the users hold, whatever its currency.
abbrev pub total : BalanceDb → ℤ
total db = sum db.balances

pub sum-update_first :
    (id : Uuid) (delta : ℤ) (rows : List Balance) (b : Balance)
    → find (has_id id) rows ≡ some b
    → sum (update_first (has_id id) (add_amount delta) rows) ≡ sum rows +ℤ delta
unfolding update_first
sum-update_first id delta [] b h = cc
sum-update_first id delta (x ∷ rows) b h = grind (int_laws, sum-update_first id delta rows b)

-- What a step that began at `db` has done to the total.
abbrev pub Moves : {A : Type 0} → BalanceDb → ℤ → Result Fault (A × BalanceDb) → Type 0
Moves db delta (ok (_, db')) = total db' ≡ total db +ℤ delta
Moves db delta (err _) = Unit

pub increment_amount-Moves :
    (id : Uuid) (delta : ℤ) (db : BalanceDb) → Moves db delta (increment_amount id delta db)
unfolding increment_amount
increment_amount-Moves id delta db = elim (Option-cases (find (has_id id) db.balances)) [
  | inl e ↦ ground arith
  | inr (b, e) ↦ ground (arith, sum-update_first id delta db.balances b e)
]

pub credit-Moves :
    (fresh : Fresh) (a : DepositArgs) (b : Balance) (db : BalanceDb)
    → Moves db a.amount (credit fresh a b db)
unfolding credit create_processed create_outbox
credit-Moves fresh a b db = ground (arith, increment_amount-Moves b.id a.amount db)

pub move_funds-Moves :
    (fresh : Fresh) (a : TransferArgs) (s r : Balance) (db : BalanceDb)
    → Moves db (pos 0) (move_funds fresh a s r db)
unfolding move_funds create_processed create_outbox
move_funds-Moves fresh a s r db = grind (int_laws, increment_amount-Moves)
