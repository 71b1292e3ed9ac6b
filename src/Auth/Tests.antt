-- ===== src/Auth/Tests.antt =====
-- A registration beside one account.
use nestjs_homework.Base.{
  true, false, none, some, [], ◌∷◌, ◌++◌, ◌==◌, ◌≡◌, ◌+◌, refl, arith, if◌then◌else◌, ◌&&◌,
}
use nestjs_homework.Base.Int.{pos}
use nestjs_homework.Base.Result.{ok}
use nestjs_homework.Base.Table.{create, update_first}
use nestjs_homework.Contracts.{Uuid, CurrencyCode, rub, user}
use nestjs_homework.Account.{Account, find_by}
use nestjs_homework.Balance.Ledger.Views.{entries}
use nestjs_homework.Otp
use nestjs_homework.Session.{login}
use nestjs_homework.Auth.{AuthState, Services}
use nestjs_homework.Auth.Repository.{
  AccountDraws, NewAccount, create_many, create_account, update_account, balance_row,
}
use nestjs_homework.Auth.Service.{register, verify, verify_password}
use nestjs_homework.Auth.Passwords.{find_and_check_account, change_password, confirm_password}
use nestjs_homework.Auth.SignUp.{IsNewcomer, sign_up_completes}
use nestjs_homework.Auth.Opening.{IsOrderly, is_supported, empty_entry, register_opens}

abbrev alice : Account
alice = record {
  id = 20;
  email = 1;
  username = 5;
  password = 3;
  is_verified = true;
  role = user;
  created_at = 1;
  deleted_at = none;
}

-- A hash is the password and 1000, and a token the draw.
abbrev env : Services
env = record {
  sign_tokens = λ draw c. record { access_token = c.id; refresh_token = draw };
  verify_token = λ now t. none;
  argon2_hash = λ salt password. password + 1000;
  argon2_verify = λ hash password. hash == password + 1000;
  peppered = λ password. password + 7;
  sha = λ code. code + 1;
  attempts_count = 3;
}

abbrev before : AuthState
before = record {
  accounts = alice ∷ [];
  balances =
      record { id = 1; amount = pos 500; currency = rub; account_id = 20; blocked_at = none } ∷ [];
  cells = λ id key. record { code = none; cooldown = false };
  sessions = [];
  mails = [];
}

abbrev draws : AccountDraws
draws = record { account_id = 30; rub_id = 31; usd_id = 32; usdt_id = 33; now = 9 }

abbrev newcomer : NewAccount
newcomer = record { email = 2; username = 6; password = 77 }

abbrev joined : AuthState
joined = (register env draws 0 1234 newcomer before).1

newcomer-IsNewcomer : IsNewcomer draws newcomer before
unfolding create_many create find_by
newcomer-IsNewcomer = record {
  name_free = refl;
  id_free = refl;
  opened = before.balances ++ balance_row 31 0 30 ∷ balance_row 32 1 30 ∷ balance_row 33 2 30 ∷ [];
  balances_free = refl;
  no_cooldown = refl;
}

-- A second account under the same address is refused.
taken : (register env draws 0 1 (record newcomer { email = 1 }) before).1.accounts ≡ alice ∷ []
unfolding register find_by
taken = refl

sign_up_completes_example :
    let second = verify env 50 2 1234 joined in
    ((register env draws 0 1234 newcomer before).0 ≡ ok tt)
    × (joined.mails ≡ record { code = 1234; email = 2 } ∷ [])
    × (second.0 ≡ ok (env.sign_tokens 50 (record { id = 30; role = user })))
    × ((login env.sign_tokens env.verify_token
          (verify_password env)
          51
          6
          77
          second.1.accounts
          second.1.sessions).0
        ≡ ok (env.sign_tokens 51 (record { id = 30; role = user })))
sign_up_completes_example =
    sign_up_completes env draws 0 1234 50 51 newcomer before newcomer-IsNewcomer
      (λ salt password. ground arith) (omega arith)

-- A password is changed with the old one and the code that was sent.
password_changed :
    let asked = change_password env 30 77 555 (verify env 50 2 1234 joined).1 in
    let answered = confirm_password env 30 0 555 88 asked.1 in
    (login env.sign_tokens env.verify_token (verify_password env) 52 6 88 answered.1.accounts []).0
    ≡ ok (env.sign_tokens 52 (record { id = 30; role = user }))
unfolding register verify change_password confirm_password find_and_check_account create_account
    update_account create_many create find_by login Otp.generate Otp.verify update_first
password_changed = refl

register_opens_example :
    IsOrderly joined.balances
    × ((x : Uuid) (c : CurrencyCode)
        → entries joined.balances x c
          ≡ (if x == 30 && is_supported c then some empty_entry else entries before.balances x c))
register_opens_example =
    register_opens env draws 0 1234 newcomer before newcomer-IsNewcomer (λ c. refl)
      (record { ids = (refl, tt); one = (refl, tt) })
