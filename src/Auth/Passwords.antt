-- ===== src/Auth/Passwords.antt =====
-- apps/user-service/src/feat/account/account.service.ts
use nestjs_homework.Base.{ℕ, none, some, is_some, if◌then◌else◌}
use nestjs_homework.Base.Result.{Result, ok, err}
use nestjs_homework.Contracts.{Uuid, Time}
use nestjs_homework.Grpc.{unauthenticated}
use nestjs_homework.Account.{Account, find_by}
use nestjs_homework.Session.{rpc}
use nestjs_homework.Auth.{password_key, AuthState, AccountFault, auth, Services}
use nestjs_homework.Auth.Repository.{update_account}
use nestjs_homework.Auth.Service.{hash_password, verify_password, otp_generate, otp_verify}

-- `_findAndCheckAccount`
unfoldable pub find_and_check_account : Uuid → AuthState → Result AccountFault Account
find_and_check_account id s = elim (find_by (some id) none none s.accounts) [
  | none ↦ err (auth (rpc unauthenticated))
  | some a ↦ if is_some a.deleted_at then err (auth (rpc unauthenticated)) else ok a
]

abbrev pub finished :
    Result AccountFault Account × AuthState → Result AccountFault (Unit {0}) × AuthState
finished (ok a, s) = (ok tt, s)
finished (err e, s) = (err e, s)

module _ (env : Services) where
  unfoldable pub change_password : Uuid → ℕ → ℕ → AuthState → Result AccountFault ℕ × AuthState
  change_password id old_password code s = elim (find_and_check_account id s) [
    | err e ↦ (err e, s)
    | ok a ↦
        if verify_password env a.password old_password
        then otp_generate env id password_key code s
        else (err (auth (rpc unauthenticated)), s)
  ]

  abbrev pub with_password : ℕ → Account → Account
  with_password hash a = record a { password = hash }

  -- After the code is checked.
  abbrev pub replaced :
      ℕ
      → ℕ
      → Account
      → Result AccountFault (Unit {0}) × AuthState
      → Result AccountFault (Unit {0}) × AuthState
  replaced salt new_password a (ok u, s) =
      finished (update_account a.id (with_password (hash_password env salt new_password)) s)
  replaced salt new_password a (err e, s) = (err e, s)

  unfoldable pub confirm_password :
      Uuid → ℕ → ℕ → ℕ → AuthState → Result AccountFault (Unit {0}) × AuthState
  confirm_password id salt code new_password s = elim (find_and_check_account id s) [
    | err e ↦ (err e, s)
    | ok a ↦ replaced salt new_password a (otp_verify env a.id password_key code s)
  ]

abbrev pub mark_deleted : Time → Account → Account
mark_deleted now a = record a { deleted_at = some now }

-- `delete`
unfoldable pub delete_account : Uuid → Time → AuthState → Result AccountFault (Unit {0}) × AuthState
delete_account id now s = elim (find_and_check_account id s) [
  | err e ↦ (err e, s)
  | ok a ↦ finished (update_account id (mark_deleted now) s)
]
