-- ===== src/Session.antt =====
-- Sessions: `login`, `refresh` and `logout` of apps/user-service/src/feat/auth/auth.service.ts over
-- apps/user-service/src/core/session/session.service.ts, which keeps the refresh token of an account in
-- Redis. The signing and checking of tokens (JwtService) and the comparison of a password with its hash are
-- parameters; `draw` is what a call's signing depends on besides the claims, such as the time, and `now` the time at
-- which a token is checked, which refuses it once it has expired. A token is a number. A session that expires is a step of its own.
mod Changes
pub mod Rotation
mod Tests
use nestjs_homework.Base.{
  ℕ, Bool, Option, none, some, List, [], ◌∷◌, ◌==◌, ◌||◌, not, is_some, if◌then◌else◌,
}
use nestjs_homework.Base.Result.{Result, ok, err}
use nestjs_homework.Contracts.{Uuid, Time, Role}
use nestjs_homework.Account.{Account, find_by, is_live}
use nestjs_homework.Grpc.{GrpcStatus, unauthenticated}

-- A key `refresh:${id}` with its value.
pub record StoredToken : Type 0 where
  pub id : Uuid
  pub token : ℕ

unfoldable pub get_session : Uuid → List StoredToken → Option ℕ
get_session id [] = none
get_session id (s ∷ sessions) = if s.id == id then some s.token else get_session id sessions

unfoldable pub delete_session : Uuid → List StoredToken → List StoredToken
delete_session id [] = []
delete_session id (s ∷ sessions) =
    if s.id == id then delete_session id sessions else s ∷ delete_session id sessions

unfoldable pub set_session : Uuid → ℕ → List StoredToken → List StoredToken
unfolding delete_session
set_session id token sessions = record { id = id; token = token } ∷ delete_session id sessions

-- `JwtPayload`
pub record Claims : Type 0 where
  pub id : Uuid
  pub role : Role

pub record Tokens : Type 0 where
  pub access_token : ℕ
  pub refresh_token : ℕ

-- An `RpcException`, or the `UnauthorizedException` of a token that is not valid.
pub data AuthFault : Type 0 where
  rpc : GrpcStatus → AuthFault
  unauthorized : AuthFault

module _ (sign_tokens : ℕ → Claims → Tokens) (verify_token : Time → ℕ → Option Claims)
    (verify_password : ℕ → ℕ → Bool) where
  -- `_authenticate`
  abbrev pub authenticate :
      ℕ → Account → List StoredToken → Result AuthFault Tokens × List StoredToken
  authenticate draw a sessions =
      let tokens = sign_tokens draw (record { id = a.id; role = a.role }) in
      (ok tokens, set_session a.id tokens.refresh_token sessions)

  unfoldable pub login :
      ℕ → ℕ → ℕ → List Account → List StoredToken → Result AuthFault Tokens × List StoredToken
  login draw username password accounts sessions =
      elim (find_by none none (some username) accounts) [
        | none ↦ (err (rpc unauthenticated), sessions)
        | some a ↦
            if not a.is_verified || is_some a.deleted_at
            then (err (rpc unauthenticated), sessions)
            else if verify_password a.password password
            then authenticate draw a sessions
            else (err (rpc unauthenticated), sessions)
      ]

  -- `refresh` once the stored token is the one given.
  abbrev pub refresh_account :
      ℕ → Uuid → List Account → List StoredToken → Result AuthFault Tokens × List StoredToken
  refresh_account draw id accounts sessions = elim (find_by (some id) none none accounts) [
    | none ↦ (err (rpc unauthenticated), sessions)
    | some a ↦
        if is_live (some a)
        then authenticate draw a sessions
        else (err (rpc unauthenticated), sessions)
  ]

  unfoldable pub refresh :
      ℕ → Time → ℕ → List Account → List StoredToken → Result AuthFault Tokens × List StoredToken
  refresh draw now token accounts sessions = elim (verify_token now token) [
    | none ↦ (err unauthorized, sessions)
    | some claims ↦ elim (get_session claims.id sessions) [
      | none ↦ (err (rpc unauthenticated), sessions)
      | some stored ↦
          if token == stored
          then refresh_account draw claims.id accounts sessions
          else (err (rpc unauthenticated), sessions)
    ]
  ]

  -- A token that is not valid is ignored; the answer is the same.
  unfoldable pub logout : Time → ℕ → List StoredToken → List StoredToken
  logout now token sessions = elim (verify_token now token) [
    | none ↦ sessions
    | some claims ↦ delete_session claims.id sessions
  ]
