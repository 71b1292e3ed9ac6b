-- ===== src/Contracts.antt =====
-- The messages between the services (contracts/kafka, contracts/rmq) and the enumerations of
-- shared/enums. An identifier, a UUID or a text that the program only compares is a number.
use nestjs_homework.Base.{ℕ, Bool, true, false, Option}
use nestjs_homework.Base.Int.{ℤ}

abbrev pub Uuid : Type 0
Uuid = ℕ

-- Milliseconds since the epoch.
abbrev pub Time : Type 0
Time = ℕ

-- A currency code of a column or a message: any text may stand there.
abbrev pub CurrencyCode : Type 0
CurrencyCode = ℕ

-- shared/enums/currency.enum.ts
abbrev pub rub : CurrencyCode
rub = 0

abbrev pub usd : CurrencyCode
usd = 1

abbrev pub usdt : CurrencyCode
usdt = 2

pub data TransactionStatus : Type 0 where
  pending completed balance_updated balance_failed failed timeout : TransactionStatus

-- `status === TransactionStatus.PENDING`
abbrev pub is_pending : TransactionStatus → Bool
is_pending pending = true
is_pending _ = false

-- `status === TransactionStatus.COMPLETED`
abbrev pub is_completed : TransactionStatus → Bool
is_completed completed = true
is_completed _ = false

pub data TransactionType : Type 0 where
  deposit withdrawal transfer_in transfer_out : TransactionType

pub data Role : Type 0 where
  user admin : Role

-- `KAFKA_TOPICS`
pub data Topic : Type 0 where
  deposit_paid_success : Topic
  tranfer_inited : Topic
  deposit_crediting_success : Topic
  deposit_crediting_failed : Topic
  tranfer_success : Topic
  tranfer_failed : Topic

-- The text of an amount, by what `BigInt(text)` reads from it; `none` is a text on which it throws.
abbrev pub AmountText : Type 0
AmountText = Option ℤ

pub record DepositPaidSuccessPayload : Type 0 where
  pub event_id : Uuid
  pub transaction_id : Uuid
  pub account_id : Uuid
  pub currency : CurrencyCode
  pub amount : AmountText

-- Also `DepositCreditingFailedPayload`.
pub record DepositCreditingPayload : Type 0 where
  pub event_id : Uuid
  pub transaction_id : Uuid

pub record TransferInitedPayload : Type 0 where
  pub event_id : Uuid
  pub out_id : Uuid
  pub in_id : Uuid
  pub from_account_id : Uuid
  pub to_account_id : Uuid
  pub currency : CurrencyCode
  pub amount : AmountText

-- Of `TransferSuccessPayload` and `TransferFailedPayload`.
pub record TransferResultPayload : Type 0 where
  pub event_id : Uuid
  pub out_id : Uuid
  pub in_id : Uuid

-- The `Json` column of an outbox event.
pub data Payload : Type 0 where
  json_null : Payload
  deposit_paid : DepositPaidSuccessPayload → Payload
  crediting : DepositCreditingPayload → Payload
  inited : TransferInitedPayload → Payload
  transferred : TransferResultPayload → Payload

-- `!payload`
abbrev pub is_null : Payload → Bool
is_null json_null = true
is_null _ = false

-- The messages of the notification queue (contracts/rmq/interfaces/rmq.payloads.ts).
pub data Notification : Type 0 where
  deposit_credited :
      (transaction_id account_id : Uuid) (amount : ℤ) (currency : CurrencyCode) → Notification
  transfer_completed :
      (out_tx in_tx from_account_id to_account_id : Uuid) (amount : ℤ) (currency : CurrencyCode)
      → Notification
