-- ===== src/Flow/Checks.antt =====
-- What an accepted transfer has checked and stored.
use nestjs_homework.Base.{
  true, none, some, List, [], ◌∷◌, ◌++◌, ◌≡◌, refl, subst, arith, find, Option-cases, inl, inr,
}
use nestjs_homework.Base.Int.{ℤ}
use nestjs_homework.Base.Result.{Result, ok, Result-cases}
use nestjs_homework.Contracts.{Uuid, CurrencyCode}
use nestjs_homework.Account.{Account, find_by, found_id}
use nestjs_homework.Grpc.{GrpcStatus, unauthenticated}
use nestjs_homework.Balance.{Balance, BalanceDb}
use nestjs_homework.Balance.Repository.{of_account, amount_ok, find_balance}
use nestjs_homework.Balance.Keeps.{AmountsOk}
use nestjs_homework.Balance.Service.{live_account, validation_account}
use nestjs_homework.Transaction.{Transaction, TransactionDb, TransactionFault}
use nestjs_homework.Transaction.Repository.{TransferIds, NewTransfer, inited_event}
use nestjs_homework.Transaction.Transfer.{find_key, TransferOutcome, known, refused, made}

pub stored_event :
    (ids : TransferIds) (a : NewTransfer) (t : Transaction) (db : TransactionDb)
    (out : Result TransactionFault Transaction × TransactionDb)
    → TransferOutcome ids a db out
    → out.0 ≡ ok t
    → find_key a.idempotency_key db ≡ none
    → out.1.outbox_events ≡ db.outbox_events ++ inited_event ids a ∷ []
stored_event ids a t db _ (known x old) done new = cc
stored_event ids a t db _ (refused e) done new = cc
stored_event ids a t db _ (made free) done new = refl

live_id :
    (code : GrpcStatus) (id : Uuid) (accounts : List Account) (a : Account)
    → live_account code id accounts ≡ ok a
    → a.id ≡ id
unfolding live_account
live_id code id accounts a h = elim (Option-cases (find_by (some id) none none accounts)) [
  | inl lost ↦ absurd (ground arith)
  | inr (x, e) ↦ ground (arith, found_id id accounts x e)
]

-- What `validationAccount` has found when it answers.
pub validated :
    (id : Uuid) (currency : CurrencyCode) (accounts : List Account) (db : BalanceDb) (amount : ℤ)
    → validation_account id currency accounts db ≡ ok amount
    → (b : Balance) × (find_balance id currency db ≡ some b)
      × (b.blocked_at ≡ none)
      × (b.amount ≡ amount)
unfolding validation_account
validated id currency accounts db amount h =
    elim (Result-cases (live_account unauthenticated id accounts)) [
      | inr (e, dead) ↦ absurd (ground arith)
      | inl (a, live) ↦
          let same = live_id unauthenticated id accounts a live in
          elim (Option-cases (find_balance a.id currency db)) [
            | inl lost ↦ absurd (ground arith)
            | inr (b, f) ↦ (
              b,
              subst (λ k. find_balance k currency db ≡ some b) same f,
              ground arith,
              ground arith,
            )
          ]
    ]

pub row_ok :
    (x : Uuid) (c : CurrencyCode) (rows : List Balance) (b : Balance)
    → find (of_account x c) rows ≡ some b
    → AmountsOk rows
    → amount_ok b.amount ≡ true
row_ok x c [] b h k = cc
row_ok x c (y ∷ rows) b h k = ground (arith, row_ok x c rows b)
