-- ===== src/Balance/Ledger.antt =====
-- What the tables of balances stand for: a ledger that maps an account and a currency to an amount,
-- and the set of the keys that took effect. Ids, the order of the rows and the outbox are forgotten.
-- The operations here are a description of their own, which the repository is compared with.
pub mod Views
pub mod Guards
pub mod Deposits
pub mod Transfers
pub mod Calls
pub mod OneRow
pub mod Replay
mod Tests
use nestjs_homework.Base.{
  ℕ, Bool, true, false, Option, none, some, ◌==◌, ◌&&◌, ◌||◌, not, is_some, if◌then◌else◌,
}
use mathlib.Core.Option
use nestjs_homework.Base.Int.{ℤ, pos, neg, ◌+ℤ◌, ltb_ℤ}
use nestjs_homework.Contracts.{Uuid, Time, CurrencyCode}
use nestjs_homework.Balance.{Balance, BalanceDb}
use nestjs_homework.Balance.Repository.{
  find_balance, find_processed, amount_ok, DepositArgs, TransferArgs,
}

pub record Entry : Type 0 where
  pub amount : ℤ
  pub blocked_at : Option Time

abbrev pub Entries : Type 0
Entries = Uuid → CurrencyCode → Option Entry

pub record Ledger : Type 0 where
  pub entry : Entries
  pub seen : Uuid → Bool

abbrev pub entry_of : Balance → Entry
entry_of b = record { amount = b.amount; blocked_at = b.blocked_at }

-- The ledger that the tables stand for.
abbrev pub ledger_of : BalanceDb → Ledger
ledger_of db = record {
  entry = λ x c. Option.map entry_of (find_balance x c db);
  seen = λ k. is_some (find_processed k db);
}

abbrev pub raise : ℤ → Entry → Entry
raise delta e = record e { amount = e.amount +ℤ delta }

-- The entries with an amount added at one place.
abbrev pub add_to : Uuid → CurrencyCode → ℤ → Entries → Entries
add_to x c delta f y k = if y == x && k == c then Option.map (raise delta) (f y k) else f y k

abbrev pub with_key : Uuid → (Uuid → Bool) → Uuid → Bool
with_key key seen k = k == key || seen k

abbrev pub deposited_in : DepositArgs → Ledger → Ledger
deposited_in a l = record {
  entry = add_to a.account_id a.currency a.amount l.entry;
  seen = with_key a.idempotency_key l.seen;
}

-- Whether the call succeeds, and the new ledger.
abbrev pub deposit_in : DepositArgs → Ledger → Bool × Ledger
deposit_in a l = elim (l.entry a.account_id a.currency) [
  | none ↦ (false, l)
  | some e ↦
      if l.seen a.idempotency_key
      then (true, l)
      else if amount_ok (e.amount +ℤ a.amount)
      then (true, deposited_in a l)
      else (false, l)
]

-- The two accounts differ, neither is blocked, and the sender's covers the amount.
abbrev pub may_pay : TransferArgs → Entry → Entry → Bool
may_pay a s r =
    not (a.from_account_id == a.to_account_id)
    && not (is_some s.blocked_at || is_some r.blocked_at)
    && not (ltb_ℤ s.amount a.amount)

-- Both entries stay in range.
abbrev pub stays_ok : TransferArgs → Entry → Entry → Bool
stays_ok a s r = amount_ok (s.amount +ℤ neg a.amount) && amount_ok (r.amount +ℤ a.amount)

abbrev pub moved_in : TransferArgs → Ledger → Ledger
moved_in a l = record {
  entry =
      add_to a.to_account_id a.currency a.amount
        (add_to a.from_account_id a.currency (neg a.amount) l.entry);
  seen = with_key a.idempotency_key l.seen;
}

abbrev pub transfer_in : TransferArgs → Ledger → Bool × Ledger
transfer_in a l =
    if l.seen a.idempotency_key then (true, l) else elim (l.entry a.from_account_id a.currency) [
      | none ↦ (false, l)
      | some s ↦ elim (l.entry a.to_account_id a.currency) [
        | none ↦ (false, l)
        | some r ↦ if may_pay a s r && stays_ok a s r then (true, moved_in a l) else (false, l)
      ]
    ]

abbrev pub emptied : Entry → Entry
emptied e = record e { amount = pos 0 }

abbrev pub reset_in : Ledger → Ledger
reset_in l = record l { entry = λ x c. Option.map emptied (l.entry x c) }
