-- ===== src/Transaction.antt =====
-- The transactions of transaction-service: the tables of apps/transaction-service/prisma/schema.prisma
-- that apps/transaction-service/src/core/repositories/transaction.repository.ts uses. The repository
-- and the services over it are in the modules below.
pub mod Queries
pub mod Repository
pub mod Retries
pub mod Advance
mod Calls
pub mod Steps
pub mod Payment
pub mod Retry
pub mod Exhaust
pub mod Settled
pub mod Transfer
pub mod KafkaService
pub mod Webhook
pub mod Verified
pub mod GrpcProcess
pub mod Requests
mod Tests
use nestjs_homework.Base.{ℕ, Option, List, Text}
use nestjs_homework.Base.Int.{ℤ}
use nestjs_homework.Contracts.{Uuid, CurrencyCode, TransactionType, TransactionStatus}
use nestjs_homework.Outbox.{OutboxEvent, ProcessedEvent}

-- The columns `provider`, `method` and `withdrawal_account`, which nothing reads, are left out.
pub record Transaction : Type 0 where
  pub id : Uuid
  pub account_id : Uuid
  pub amount : ℤ
  pub currency : CurrencyCode
  pub type : TransactionType
  pub status : TransactionStatus
  pub idempotency_key : Text
  pub retry_count : ℕ
  pub provider_payment_id : Option Uuid
  pub reference_id : Option Uuid

pub record TransactionDb : Type 0 where
  pub transactions : List Transaction
  pub processed_events : List ProcessedEvent
  pub outbox_events : List OutboxEvent

-- What the repository and the Kafka service throw, and the errors of the database.
pub data TransactionFault : Type 0 where
  transaction_not_found : TransactionFault
  status_mismatch : TransactionStatus → TransactionFault
  event_not_found payload_not_found retries_exhausted : TransactionFault
  unique_violation record_not_found header_missing : TransactionFault
