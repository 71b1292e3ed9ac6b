-- ===== src/Balance/Service.antt =====
-- apps/user-service/src/feat/balance/balance.service.ts: the gRPC calls on balances. What `jobClient`
-- answers is a parameter.
use nestjs_homework.Base.{
  ℕ, Option, none, some, List, ◌==◌, length, is_some, map, Text, if◌then◌else◌,
}
use nestjs_homework.Base.Int.{ℤ}
use nestjs_homework.Base.Result.{Result, ok, err}
use nestjs_homework.Contracts.{Uuid, Time, CurrencyCode}
use nestjs_homework.Account.{Account, find_by, is_live}
use nestjs_homework.Grpc.{GrpcStatus, unauthenticated, not_found}
use nestjs_homework.Balance.{Balance, BalanceDb}
use nestjs_homework.Balance.Money.{to_dollars_str}
use nestjs_homework.Balance.Repository.{find_balances, find_balance, reset_all_balances}

-- `!account || account.deletedAt`, or the account.
unfoldable pub live_account : GrpcStatus → Uuid → List Account → Result GrpcStatus Account
live_account code id accounts = elim (find_by (some id) none none accounts) [
  | none ↦ err code
  | some a ↦ if is_live (some a) then ok a else err code
]

pub record BalanceView : Type 0 where
  pub amount : Text
  pub currency : CurrencyCode
  pub blocked_at : Option Time

abbrev pub view : Balance → BalanceView
view b = record {
  amount = to_dollars_str b.amount;
  currency = b.currency;
  blocked_at = b.blocked_at;
}

unfoldable pub get_my_balances :
    Uuid → List Account → BalanceDb → Result GrpcStatus (List BalanceView)
get_my_balances id accounts db = elim (live_account unauthenticated id accounts) [
  | err e ↦ err e
  | ok a ↦
      let balances = find_balances a.id db in
      if length balances == 0 then err not_found else ok (map view balances)
]

unfoldable pub validation_account :
    Uuid → CurrencyCode → List Account → BalanceDb → Result GrpcStatus ℤ
validation_account id currency accounts db = elim (live_account unauthenticated id accounts) [
  | err e ↦ err e
  | ok a ↦ elim (find_balance a.id currency db) [
    | none ↦ err not_found
    | some b ↦ if is_some b.blocked_at then err not_found else ok b.amount
  ]
]

-- The calls of the job service.
pub data JobCall : Type 0 where
  put_reset_balance_job start_reset_balance_job stop_reset_balance_job : JobCall

-- `putResetBalanceJob`, `startResetBalanceJob` and `stopResetBalanceJob`: the account must exist.
unfoldable pub reset_balance_job :
    (JobCall → Result GrpcStatus (Unit {0}))
    → JobCall
    → Uuid
    → List Account
    → Result GrpcStatus (Unit {0})
reset_balance_job job_client job id accounts = elim (live_account not_found id accounts) [
  | err e ↦ err e
  | ok a ↦ job_client job
]

abbrev pub reset_balances : BalanceDb → ℕ × BalanceDb
reset_balances db = reset_all_balances db
