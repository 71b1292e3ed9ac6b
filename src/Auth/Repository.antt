-- ===== src/Auth/Repository.antt =====
-- apps/user-service/src/core/repositories/account.repository.ts: the methods that write.
use nestjs_homework.Base.{ℕ, Bool, false, Option, none, some, List, [], ◌∷◌, ◌==◌, ◌||◌, find}
use nestjs_homework.Base.Int.{pos}
use nestjs_homework.Base.Result.{Result, ok, err}
use nestjs_homework.Base.Table.{create, update_first}
use nestjs_homework.Contracts.{Uuid, Time, CurrencyCode, rub, usd, usdt, user}
use nestjs_homework.Account.{Account}
use nestjs_homework.Balance.{Balance}
use nestjs_homework.Auth.{AuthState, AccountFault, unique_violation, record_not_found}

-- What `uuidv7()` returns for the account and its balances, and the time.
pub record AccountDraws : Type 0 where
  pub account_id : Uuid
  pub rub_id : Uuid
  pub usd_id : Uuid
  pub usdt_id : Uuid
  pub now : Time

pub record NewAccount : Type 0 where
  pub email : ℕ
  pub username : ℕ
  pub password : ℕ

-- `id`, `email` and `username` are unique.
abbrev pub conflicting_account : Account → Account → Bool
conflicting_account a b = b.id == a.id || b.email == a.email || b.username == a.username

abbrev pub same_balance : Balance → Balance → Bool
same_balance a b = b.id == a.id

abbrev pub account_row : AccountDraws → NewAccount → Account
account_row d a = record {
  id = d.account_id;
  email = a.email;
  username = a.username;
  password = a.password;
  is_verified = false;
  role = user;
  created_at = d.now;
  deleted_at = none;
}

-- A row of `createMany`: the amount is 0 by default.
abbrev pub balance_row : Uuid → CurrencyCode → Uuid → Balance
balance_row id currency account = record {
  id = id;
  amount = pos 0;
  currency = currency;
  account_id = account;
  blocked_at = none;
}

unfoldable pub create_many : List Balance → List Balance → Option (List Balance)
create_many [] balances = some balances
create_many (b ∷ bs) balances = elim (create same_balance b balances) [
  | none ↦ none
  | some balances' ↦ create_many bs balances'
]

abbrev pub balance_rows : AccountDraws → List Balance
balance_rows d =
    balance_row d.rub_id rub d.account_id
    ∷ balance_row d.usd_id usd d.account_id
    ∷ balance_row d.usdt_id usdt d.account_id
    ∷ []

-- The account and its balances are created together or not at all.
unfoldable pub create_account :
    AccountDraws → NewAccount → AuthState → Result AccountFault Account × AuthState
unfolding create_many
create_account d a s = elim (create conflicting_account (account_row d a) s.accounts) [
  | none ↦ (err unique_violation, s)
  | some accounts ↦ elim (create_many (balance_rows d) s.balances) [
    | none ↦ (err unique_violation, s)
    | some balances ↦ (ok (account_row d a), record s { accounts = accounts; balances = balances })
  ]
]

abbrev pub has_account_id : Uuid → Account → Bool
has_account_id id a = a.id == id

-- `update({ where: { id }, data })`
unfoldable pub update_account :
    Uuid → (Account → Account) → AuthState → Result AccountFault Account × AuthState
update_account id f s = elim (find (has_account_id id) s.accounts) [
  | none ↦ (err record_not_found, s)
  | some a ↦ (ok (f a), record s { accounts = update_first (has_account_id id) f s.accounts })
]
