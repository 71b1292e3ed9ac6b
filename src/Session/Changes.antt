-- ===== src/Session/Changes.antt =====
-- What the calls do to the sessions.
use nestjs_homework.Base.{
  not, ◌||◌, is_some, ℕ, Bool, Option, none, some, List, [], ◌∷◌, ◌==◌, ◌≡◌, arith, Option-cases,
  Bool-cases, inl, inr, if◌then◌else◌,
}
use nestjs_homework.Contracts.{Uuid, Time}
use nestjs_homework.Account.{Account, find_by, is_live}
use nestjs_homework.Session.{
  StoredToken, get_session, delete_session, set_session, Claims, Tokens, authenticate, login,
  refresh_account, refresh,
}

pub get_session-delete_session :
    (id k : Uuid) (sessions : List StoredToken)
    → get_session id (delete_session k sessions)
      ≡ (if k == id then none else get_session id sessions)
unfolding get_session delete_session
get_session-delete_session id k [] = ground arith
get_session-delete_session id k (s ∷ sessions) =
    ground (arith, get_session-delete_session id k sessions)

pub get_session-set_session :
    (id k : Uuid) (token : ℕ) (sessions : List StoredToken)
    → get_session id (set_session k token sessions)
      ≡ (if k == id then some token else get_session id sessions)
unfolding get_session set_session
get_session-set_session id k token sessions =
    ground (arith, get_session-delete_session id k sessions)

module _ (sign_tokens : ℕ → Claims → Tokens) (verify_token : Time → ℕ → Option Claims)
    (verify_password : ℕ → ℕ → Bool) where
  -- What a call does to the sessions: nothing, or it stores a token that it issued.
  pub data Changed (draw : ℕ) (s : List StoredToken) : List StoredToken → Type 0 where
    unchanged : Changed draw s s
    issued : (c : Claims) → Changed draw s (set_session c.id (sign_tokens draw c).refresh_token s)

  authenticate-Changed :
      (draw : ℕ) (a : Account) (s : List StoredToken)
      → Changed draw s (authenticate sign_tokens verify_token verify_password draw a s).1
  authenticate-Changed draw a s = issued (record { id = a.id; role = a.role })

  pub login-Changed :
      (draw username password : ℕ) (accounts : List Account) (s : List StoredToken)
      → Changed draw s
          (login sign_tokens verify_token verify_password draw username password accounts s).1
  unfolding login
  login-Changed draw username password accounts s =
      elim (Option-cases (find_by none none (some username) accounts)) [
        | inl e ↦ rw (login, e) unchanged
        | inr (a, e) ↦ elim (Bool-cases (not a.is_verified || is_some a.deleted_at)) [
          | inl bad ↦ rw (login, e, bad) unchanged
          | inr live ↦ elim (Bool-cases (verify_password a.password password)) [
            | inl right ↦ rw (login, e, live, right) (authenticate-Changed draw a s)
            | inr wrong ↦ rw (login, e, live, wrong) unchanged
          ]
        ]
      ]

  refresh_account-Changed :
      (draw : ℕ) (id : Uuid) (accounts : List Account) (s : List StoredToken)
      → Changed draw s
          (refresh_account sign_tokens verify_token verify_password draw id accounts s).1
  refresh_account-Changed draw id accounts s =
      elim (Option-cases (find_by (some id) none none accounts)) [
        | inl e ↦ rw (refresh_account, e) unchanged
        | inr (a, e) ↦ elim (Bool-cases (is_live (some a))) [
          | inl live ↦ rw (refresh_account, e, live) (authenticate-Changed draw a s)
          | inr dead ↦ rw (refresh_account, e, dead) unchanged
        ]
      ]

  pub refresh-Changed :
      (draw : ℕ) (now : Time) (t : ℕ) (accounts : List Account) (s : List StoredToken)
      → Changed draw s (refresh sign_tokens verify_token verify_password draw now t accounts s).1
  unfolding refresh
  refresh-Changed draw now t accounts s = elim (Option-cases (verify_token now t)) [
    | inl e ↦ rw (refresh, e) unchanged
    | inr (claims, e) ↦ elim (Option-cases (get_session claims.id s)) [
      | inl gone ↦ rw (refresh, e, gone) unchanged
      | inr (stored, got) ↦ elim (Bool-cases (t == stored)) [
        | inl same ↦ rw (refresh, e, got, same) (refresh_account-Changed draw claims.id accounts s)
        | inr other ↦ rw (refresh, e, got, other) unchanged
      ]
    ]
  ]
