-- ===== src/Session/Tests.antt =====
-- A session whose token 1 is refreshed, then logged in again.
use nestjs_homework.Base.{
  ltb, if◌then◌else◌, ℕ, Bool, true, Option, none, some, List, [], ◌∷◌, ◌==◌, ◌≡◌, refl, arith,
}
use nestjs_homework.Base.Result.{ok, err}
use nestjs_homework.Contracts.{user, Time}
use nestjs_homework.Account.{Account, find_by}
use nestjs_homework.Session.{
  StoredToken, Claims, Tokens, AuthFault, get_session, delete_session, set_session, login, refresh,
  logout,
}
use nestjs_homework.Session.Rotation.{here, next, logs_in, NamesOne, refresh_once}

abbrev alice : Account
alice = record {
  id = 20;
  email = 1;
  username = 5;
  password = 3;
  is_verified = true;
  role = user;
  created_at = 1;
  deleted_at = none;
}

-- The token of a draw is its number, and every token is Alice's until time 100.
abbrev sign_tokens : ℕ → Claims → Tokens
sign_tokens draw c = record { access_token = 0; refresh_token = draw }

abbrev verify_token : Time → ℕ → Option Claims
verify_token now t = if ltb now 100 then some (record { id = 20; role = user }) else none

abbrev verify_password : ℕ → ℕ → Bool
verify_password hash password = hash == password

abbrev sessions : List StoredToken
sessions = record { id = 20; token = 1 } ∷ []

abbrev refreshed : List StoredToken
refreshed = (refresh sign_tokens verify_token verify_password 2 50 1 (alice ∷ []) sessions).1

abbrev again : List StoredToken
again = (login sign_tokens verify_token verify_password 3 5 3 (alice ∷ []) refreshed).1

refresh_succeeds :
    (refresh sign_tokens verify_token verify_password 2 50 1 (alice ∷ []) sessions).0
    ≡ ok (record { access_token = 0; refresh_token = 2 })
unfolding refresh get_session find_by
refresh_succeeds = refl

logged_in_again : again ≡ record { id = 20; token = 3 } ∷ []
unfolding login refresh get_session set_session delete_session find_by
logged_in_again = refl

logged_out : logout sign_tokens verify_token verify_password 50 9 sessions ≡ []
unfolding logout delete_session
logged_out = refl

names_alice : NamesOne sign_tokens verify_token verify_password 1
names_alice now now' c c' h k = ground arith

refresh_once_example :
    (e : AuthFault) × (refresh sign_tokens verify_token verify_password 4 60 1 (alice ∷ []) again
      ≡ (err e, again))
refresh_once_example =
    refresh_once sign_tokens verify_token verify_password 2 4 50 60 1 (alice ∷ []) (alice ∷ [])
      sessions names_alice (λ c h. omega (arith, h)) refresh_succeeds
      (next here (logs_in 3 5 3 (alice ∷ []) (λ c h. omega (arith, h))))
