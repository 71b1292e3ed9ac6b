-- ===== src/Auth/Service.antt =====
-- `register`, `resend` and `verify` of apps/user-service/src/feat/auth/auth.service.ts. The signal that clears the cache of
-- users is left out. What libraries draw is an argument: ids, salts, codes and what a signing depends on.
use nestjs_homework.Base.{
  ℕ, Bool, true, Option, none, some, [], ◌∷◌, ◌++◌, ◌||◌, is_some, if◌then◌else◌,
}
use nestjs_homework.Base.Result.{Result, ok, err}
use nestjs_homework.Contracts.{Uuid}
use nestjs_homework.Grpc.{already_exists, invalid_argument}
use nestjs_homework.Account.{Account, find_by}
use nestjs_homework.Otp
use nestjs_homework.Otp.{Cell, OtpReply, sent, accepted}
use nestjs_homework.Session.{Tokens, authenticate, rpc}
use nestjs_homework.Auth.{
  OtpKey, email_key, set_cell, AuthState, AccountFault, auth, otp_refused, Services,
}
use nestjs_homework.Auth.Repository.{AccountDraws, NewAccount, create_account, update_account}

abbrev pub mark_verified : Account → Account
mark_verified a = record a { is_verified = true }

module _ (env : Services) where
  -- `HashService.hash`, with the salt that it draws.
  abbrev pub hash_password : ℕ → ℕ → ℕ
  hash_password salt password = env.argon2_hash salt (env.peppered password)

  -- `HashService.verify`
  abbrev pub verify_password : ℕ → ℕ → Bool
  verify_password hash password = env.argon2_verify hash (env.peppered password)

  -- What `otpService.generate` returns or throws.
  abbrev pub code_of : OtpReply → Result AccountFault ℕ
  code_of (sent code) = ok code
  code_of reply = err (otp_refused reply)

  -- What `otpService.verify` throws.
  abbrev pub code_checked : OtpReply → Result AccountFault (Unit {0})
  code_checked accepted = ok tt
  code_checked reply = err (otp_refused reply)

  abbrev pub otp_generate : Uuid → OtpKey → ℕ → AuthState → Result AccountFault ℕ × AuthState
  otp_generate id key code s =
      let answer = Otp.generate env.sha env.attempts_count code (s.cells id key) in
      (code_of answer.0, record s { cells = set_cell id key answer.1 s.cells })

  abbrev pub otp_verify : Uuid → OtpKey → ℕ → AuthState → Result AccountFault (Unit {0}) × AuthState
  otp_verify id key code s =
      let answer = Otp.verify env.sha env.attempts_count code (s.cells id key) in
      (code_checked answer.0, record s { cells = set_cell id key answer.1 s.cells })

  -- `mailQueueRmq.emit`
  abbrev pub mailed :
      ℕ → Result AccountFault ℕ × AuthState → Result AccountFault (Unit {0}) × AuthState
  mailed email (ok code, s) =
      (ok tt, record s { mails = s.mails ++ record { code = code; email = email } ∷ [] })
  mailed email (err e, s) = (err e, s)

  -- After the account is created.
  abbrev pub registered :
      ℕ → ℕ → Result AccountFault Account × AuthState → Result AccountFault (Unit {0}) × AuthState
  registered code email (ok a, s) = mailed email (otp_generate a.id email_key code s)
  registered code email (err e, s) = (err e, s)

  unfoldable pub register :
      AccountDraws → ℕ → ℕ → NewAccount → AuthState → Result AccountFault (Unit {0}) × AuthState
  register draws salt code new s =
      elim (find_by none (some new.email) (some new.username) s.accounts) [
        | some a ↦ (err (auth (rpc already_exists)), s)
        | none ↦
            registered code new.email
              (create_account draws (record new { password = hash_password salt new.password }) s)
      ]

  -- `!account || account.isVerified || account.deletedAt`
  abbrev pub unverified : Option Account → Option Account
  unverified none = none
  unverified (some a) = if a.is_verified || is_some a.deleted_at then none else some a

  unfoldable pub resend : ℕ → ℕ → AuthState → Result AccountFault (Unit {0}) × AuthState
  resend code email s = elim (unverified (find_by none (some email) none s.accounts)) [
    | none ↦ (err (auth (rpc invalid_argument)), s)
    | some a ↦ mailed email (otp_generate a.id email_key code s)
  ]

  -- `_authenticate`
  abbrev pub signed_in :
      ℕ → Result AccountFault Account × AuthState → Result AccountFault Tokens × AuthState
  signed_in draw (ok a, s) =
      let answer =
        authenticate env.sign_tokens env.verify_token verify_password draw a s.sessions in
      (elim answer.0 [ ok t ↦ ok t | err e ↦ err (auth e) ], record s { sessions = answer.1 })
  signed_in draw (err e, s) = (err e, s)

  -- After the code is checked.
  abbrev pub confirmed :
      ℕ
      → Account
      → Result AccountFault (Unit {0}) × AuthState
      → Result AccountFault Tokens × AuthState
  confirmed draw a (ok u, s) = signed_in draw (update_account a.id mark_verified s)
  confirmed draw a (err e, s) = (err e, s)

  unfoldable pub verify : ℕ → ℕ → ℕ → AuthState → Result AccountFault Tokens × AuthState
  verify draw email code s = elim (unverified (find_by none (some email) none s.accounts)) [
    | none ↦ (err (auth (rpc invalid_argument)), s)
    | some a ↦ confirmed draw a (otp_verify a.id email_key code s)
  ]
