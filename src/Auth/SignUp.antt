-- ===== src/Auth/SignUp.antt =====
-- From the registration to the first login.
use nestjs_homework.Base.{
  ℕ, Bool, true, false, none, some, List, [], ◌∷◌, ◌++◌, ◌≡◌, ◌<◌, refl, arith, any, find,
  find-append_new, ==_refl,
}
use nestjs_homework.Base.Result.{ok}
use nestjs_homework.Base.Table.{create, update_first}
use nestjs_homework.Contracts.{user}
use nestjs_homework.Account.{Account, find_by}
use nestjs_homework.Balance.{Balance}
use nestjs_homework.Otp
use nestjs_homework.Otp.{Cell, StoredCode, accepted}
use nestjs_homework.Session.{login, StoredToken}
use nestjs_homework.Auth.{email_key, set_cell, AuthState, Services}
use nestjs_homework.Auth.Repository.{
  AccountDraws, NewAccount, conflicting_account, account_row, balance_rows, create_many,
  create_account, has_account_id, update_account,
}
use nestjs_homework.Auth.Service.{hash_password, verify_password, mark_verified, register, verify}

update_first-append :
    {A : Type 0} (p : A → Bool) (f : A → A) (xs : List A) (x : A)
    → find p xs ≡ none
    → p x ≡ true
    → update_first p f (xs ++ x ∷ []) ≡ xs ++ f x ∷ []
unfolding update_first
update_first-append p f [] x h e = ground arith
update_first-append p f (y ∷ xs) x h e = ground (arith, update_first-append p f xs x)

-- The names are free, the ids that are drawn are new, and no code was sent to the id.
pub record IsNewcomer (draws : AccountDraws) (new : NewAccount) (s : AuthState) : Type 0 where
  pub name_free : find_by none (some new.email) (some new.username) s.accounts ≡ none
  pub id_free : find (has_account_id draws.account_id) s.accounts ≡ none
  pub opened : List Balance
  pub balances_free : create_many (balance_rows draws) s.balances ≡ some opened
  pub no_cooldown : (s.cells draws.account_id email_key).cooldown ≡ false

free_of_conflict :
    (row : Account) (accounts : List Account)
    → find_by none (some row.email) (some row.username) accounts ≡ none
    → find (has_account_id row.id) accounts ≡ none
    → any (conflicting_account row) accounts ≡ false
unfolding find_by
free_of_conflict row [] h k = refl
free_of_conflict row (a ∷ accounts) h k = ground (arith, free_of_conflict row accounts)

email_free :
    (email username : ℕ) (accounts : List Account)
    → find_by none (some email) (some username) accounts ≡ none
    → find_by none (some email) none accounts ≡ none
unfolding find_by
email_free email username [] h = refl
email_free email username (a ∷ accounts) h = ground (arith, email_free email username accounts)

username_free :
    (email username : ℕ) (accounts : List Account)
    → find_by none (some email) (some username) accounts ≡ none
    → find_by none none (some username) accounts ≡ none
unfolding find_by
username_free email username [] h = refl
username_free email username (a ∷ accounts) h =
    ground (arith, username_free email username accounts)

module _ (env : Services) (draws : AccountDraws) (salt code : ℕ) (new : NewAccount)
    (s : AuthState) where
  abbrev pub row : Account
  row = account_row draws (record new { password = hash_password env salt new.password })

  abbrev pub sent_cell : Cell
  sent_cell = record { code = some (record { hash = env.sha code; attempts = 0 }); cooldown = true }

  abbrev pub joined : List Balance → AuthState
  joined balances = record s {
    accounts = s.accounts ++ row ∷ [];
    balances = balances;
    cells = set_cell draws.account_id email_key sent_cell s.cells;
    mails = s.mails ++ record { code = code; email = new.email } ∷ [];
  }

  created :
      (n : IsNewcomer draws new s)
      → create_account draws (record new { password = hash_password env salt new.password }) s
        ≡ (ok row, record s { accounts = s.accounts ++ row ∷ []; balances = n.opened })
  unfolding create_account create
  created n = ground (arith, free_of_conflict row s.accounts n.name_free n.id_free, n.balances_free)

  pub register_joins :
      (n : IsNewcomer draws new s) → register env draws salt code new s ≡ (ok tt, joined n.opened)
  unfolding register Otp.generate
  register_joins n = rw (register, n.name_free, created n, n.no_cooldown) refl

  found_by_email :
      (n : IsNewcomer draws new s)
      → find_by none (some new.email) none (s.accounts ++ row ∷ []) ≡ some row
  unfolding find_by
  found_by_email n =
      find-append_new _ s.accounts row (email_free new.email new.username s.accounts n.name_free)
        (ground arith)

  stored_cell :
      (balances : List Balance) → (joined balances).cells draws.account_id email_key ≡ sent_cell
  stored_cell balances = ground arith

  accepts :
      0 < env.attempts_count → (Otp.verify env.sha env.attempts_count code sent_cell).0 ≡ accepted
  unfolding Otp.verify
  accepts h = ground arith

  now_verified :
      IsNewcomer draws new s
      → update_first (has_account_id draws.account_id) mark_verified (s.accounts ++ row ∷ [])
        ≡ s.accounts ++ mark_verified row ∷ []
  now_verified n =
      update_first-append _ mark_verified s.accounts row n.id_free (==_refl draws.account_id)

  found_by_id :
      IsNewcomer draws new s
      → find (has_account_id draws.account_id) (s.accounts ++ row ∷ []) ≡ some row
  found_by_id n = find-append_new _ s.accounts row n.id_free (==_refl draws.account_id)

  verify-joined :
      (draw : ℕ) (n : IsNewcomer draws new s)
      → 0 < env.attempts_count
      → let answer = verify env draw new.email code (joined n.opened) in
        (answer.0 ≡ ok (env.sign_tokens draw (record { id = draws.account_id; role = user })))
        × (answer.1.accounts ≡ s.accounts ++ mark_verified row ∷ [])
  unfolding verify update_account
  verify-joined draw n some_attempts =
      rw
        (
          verify,
          found_by_email n,
          stored_cell n.opened,
          accepts some_attempts,
          update_account,
          found_by_id n,
        )
        (refl, now_verified n)

  found_by_username :
      IsNewcomer draws new s
      → find_by none none (some new.username) (s.accounts ++ mark_verified row ∷ [])
        ≡ some (mark_verified row)
  unfolding find_by
  found_by_username n =
      find-append_new _ s.accounts (mark_verified row)
        (username_free new.email new.username s.accounts n.name_free) (ground arith)

  login_joined :
      (draw : ℕ) (sessions : List StoredToken)
      → IsNewcomer draws new s
      → verify_password env (hash_password env salt new.password) new.password ≡ true
      → (login env.sign_tokens env.verify_token
          (verify_password env)
          draw
          new.username
          new.password
          (s.accounts ++ mark_verified row ∷ [])
          sessions).0
        ≡ ok (env.sign_tokens draw (record { id = draws.account_id; role = user }))
  unfolding login
  login_joined draw sessions n right = rw (login, found_by_username n, right) refl

-- Whoever registers under names and ids that are free, verifies the address with the code that was mailed to it, and logs in
-- with the password chosen, succeeds in all three calls, where argon2 accepts a password for its hash and a code allows an attempt.
pub sign_up_completes :
    (env : Services) (draws : AccountDraws) (salt code draw draw' : ℕ) (new : NewAccount)
    (s : AuthState)
    → IsNewcomer draws new s
    → ((hash_draw password : ℕ)
        → env.argon2_verify (env.argon2_hash hash_draw password) password ≡ true)
    → 0 < env.attempts_count
    → let first = register env draws salt code new s in
      let second = verify env draw new.email code first.1 in
      (first.0 ≡ ok tt)
      × (first.1.mails ≡ s.mails ++ record { code = code; email = new.email } ∷ [])
      × (second.0 ≡ ok (env.sign_tokens draw (record { id = draws.account_id; role = user })))
      × ((login env.sign_tokens env.verify_token
            (verify_password env)
            draw'
            new.username
            new.password
            second.1.accounts
            second.1.sessions).0
          ≡ ok (env.sign_tokens draw' (record { id = draws.account_id; role = user })))
sign_up_completes env draws salt code draw draw' new s n right attempts =
    let joins = register_joins env draws salt code new s n in
    let (verified, accounts) = verify-joined env draws salt code new s draw n attempts in
    rw joins (
      refl,
      refl,
      verified,
      rw accounts (
          login_joined env draws salt code new s draw' _ n
            (right salt (env.peppered new.password))),
    )
