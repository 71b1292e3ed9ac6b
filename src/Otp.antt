-- ===== src/Otp.antt =====
-- The one-time codes of apps/user-service/src/core/otp/otp.service.ts. A cell is what Redis holds under
-- the keys `otp:${key}:${id}` and `otp:${key}:${id}:cooldown` of one account and purpose; each call
-- touches one cell, and runs its commands without another call in between. Expiry is an event of its own.
pub mod Guesses
mod Tests
use nestjs_homework.Base.{
  ℕ, Bool, true, false, Option, none, some, ◌+◌, ◌-◌, ◌==◌, ltb, if◌then◌else◌,
}

-- The fields of the hash: `hash` and `attempts`.
pub record StoredCode : Type 0 where
  pub hash : ℕ
  pub attempts : ℕ

pub record Cell : Type 0 where
  pub code : Option StoredCode
  pub cooldown : Bool

-- The `GrpcStatus` of the exceptions; a wrong code tells how many attempts are left.
pub data OtpReply : Type 0 where
  sent : ℕ → OtpReply
  accepted : OtpReply
  not_found : OtpReply
  resource_exhausted : OtpReply
  unauthenticated : ℕ → OtpReply

-- `sha256` of node:crypto and the configured number of attempts.
module _ (sha : ℕ → ℕ) (attempts_count : ℕ) where
  -- `generate`, with the code that `generateCode` of patcode returns.
  unfoldable pub generate : ℕ → Cell → OtpReply × Cell
  generate code cell = if cell.cooldown then (resource_exhausted, cell) else (
    sent code,
    record { code = some (record { hash = sha code; attempts = 0 }); cooldown = true },
  )

  -- The part of `verify` after `hget` found a hash.
  verify_stored : ℕ → StoredCode → Cell → OtpReply × Cell
  verify_stored code stored cell =
      let attempts = stored.attempts + 1 in
      if ltb attempts_count attempts
      then (resource_exhausted, record cell { code = none })
      else if stored.hash == sha code
      then (accepted, record { code = none; cooldown = false })
      else (
        unauthenticated (attempts_count - attempts),
        record cell { code = some (record stored { attempts = attempts }) },
      )

  unfoldable pub verify : ℕ → Cell → OtpReply × Cell
  unfolding verify_stored
  verify code cell = elim cell.code [
    | none ↦ (not_found, cell)
    | some stored ↦ verify_stored code stored cell
  ]
