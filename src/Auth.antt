-- ===== src/Auth.antt =====
-- Accounts: how they are registered, verified, changed and deleted. The state is what
-- apps/user-service/src/feat/auth/auth.service.ts and apps/user-service/src/feat/account/account.service.ts
-- share: the accounts and balances in PostgreSQL, the one-time codes and sessions in Redis, and the queue of mails.
pub mod Repository
pub mod Service
pub mod Passwords
pub mod SignUp
pub mod Opening
mod Tests
use nestjs_homework.Base.{ℕ, Bool, true, false, Option, List, ◌==◌, ◌&&◌, if◌then◌else◌}
use nestjs_homework.Base.Result.{Result}
use nestjs_homework.Contracts.{Uuid, Time}
use nestjs_homework.Account.{Account}
use nestjs_homework.Balance.{Balance}
use nestjs_homework.Otp.{Cell, OtpReply}
use nestjs_homework.Session.{StoredToken, Claims, Tokens, AuthFault}

-- `OtpKey`
pub data OtpKey : Type 0 where
  email_key password_key : OtpKey

abbrev pub same_otp_key : OtpKey → OtpKey → Bool
same_otp_key email_key email_key = true
same_otp_key email_key password_key = false
same_otp_key password_key email_key = false
same_otp_key password_key password_key = true

-- `OtpRequestedPayload`
pub record OtpRequested : Type 0 where
  pub code : ℕ
  pub email : ℕ

-- A cell for each account and purpose.
abbrev pub Cells : Type 0
Cells = Uuid → OtpKey → Cell

abbrev pub set_cell : Uuid → OtpKey → Cell → Cells → Cells
set_cell id key cell cells x k = if x == id && same_otp_key k key then cell else cells x k

pub record AuthState : Type 0 where
  pub accounts : List Account
  pub balances : List Balance
  pub cells : Cells
  pub sessions : List StoredToken
  pub mails : List OtpRequested

-- An error of the sessions, a refusal of the one-time codes, or an error of the database.
pub data AccountFault : Type 0 where
  auth : AuthFault → AccountFault
  otp_refused : OtpReply → AccountFault
  unique_violation : AccountFault
  record_not_found : AccountFault

-- The libraries and the settings: `jwt` signs and checks tokens, `argon2` hashes and checks a password with the pepper
-- appended, where the draw is the salt, `sha` is the hash of a code.
pub record Services : Type 0 where
  pub sign_tokens : ℕ → Claims → Tokens
  pub verify_token : Time → ℕ → Option Claims
  pub argon2_hash : ℕ → ℕ → ℕ
  pub argon2_verify : ℕ → ℕ → Bool
  pub peppered : ℕ → ℕ
  pub sha : ℕ → ℕ
  pub attempts_count : ℕ
