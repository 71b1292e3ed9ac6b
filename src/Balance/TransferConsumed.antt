-- ===== src/Balance/TransferConsumed.antt =====
-- What the consumer of transfers of balance-kafka.service.ts leaves of the money, on every path.
use nestjs_homework.Base.{Option, none, some, ◌≡◌, refl, arith, ◌∙◌, Option-cases, inl, inr}
use nestjs_homework.Base.Result.{Result, ok, err}
use nestjs_homework.Contracts.{Uuid, CurrencyCode, Topic, Payload, TransferInitedPayload}
use nestjs_homework.Balance.{Fault}
use nestjs_homework.Balance.Total.{total}
use nestjs_homework.Balance.Funds.{transfer_conserves}
use nestjs_homework.Balance.KafkaService.{
  rescue, Consumer, Draws, transfer_args, try_transfer, transfer_to_account,
}
use nestjs_homework.Balance.Consumed.{Announced, stored, rethrown, announce_failure-Announced}

Announced-total :
    (draws : Draws) (account : Uuid) (currency : CurrencyCode) (topic : Topic) (payload : Payload)
    (c : Consumer) (out : Result Fault (Unit {0}) × Consumer)
    → Announced draws account currency topic payload c out
    → total out.1.db ≡ total c.db
Announced-total draws account currency topic payload c _ (stored b found) = refl
Announced-total draws account currency topic payload c _ (rethrown e) = refl

rescue-total :
    (out : Result Fault (Unit {0}) × Consumer)
    (handler : Consumer → Result Fault (Unit {0}) × Consumer)
    → ((c : Consumer) → total (handler c).1.db ≡ total c.db)
    → total (rescue out handler).1.db ≡ total out.1.db
rescue-total (ok u, c) handler h = refl
rescue-total (err e, c) handler h = h c

try_transfer-total :
    (draws : Draws) (header : Option Uuid) (p : TransferInitedPayload) (c : Consumer)
    → total (try_transfer draws header p c).1.db ≡ total c.db
unfolding try_transfer
try_transfer-total draws none p c = refl
try_transfer-total draws (some key) p c = elim (Option-cases p.amount) [
  | inl bad ↦ ground arith
  | inr (amount, good) ↦
      ground (arith, transfer_conserves draws.fresh (transfer_args key amount p) c.db)
]

-- Whatever comes of the message that a transfer was initiated, the sum of all balances stays.
pub transfer_to_account_conserves :
    (draws : Draws) (header : Option Uuid) (p : TransferInitedPayload) (c : Consumer)
    → total (transfer_to_account draws header p c).1.db ≡ total c.db
unfolding transfer_to_account
transfer_to_account_conserves draws header p c =
    rescue-total (try_transfer draws header p c) _
      (λ d. Announced-total draws _ _ _ _ d _ (announce_failure-Announced draws _ _ _ _ d))
    ∙ try_transfer-total draws header p c
