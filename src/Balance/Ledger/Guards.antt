-- ===== src/Balance/Ledger/Guards.antt =====
-- The guards of the repository, on every branch, where the ids that `uuidv7()` draws are new and an account
-- has one balance in a currency.
use nestjs_homework.Base.{
  Bool, true, false, none, some, List, [], ◌∷◌, ◌++◌, ◌==◌, ◌&&◌, ◌≡◌, ◌≢◌, ◌⊎◌, subst, refl, arith,
  find, any, filter, length, elem, ltb, Option-cases, Bool-cases, inl, inr, ◌∙◌, if◌then◌else◌, ◌+◌,
}
use nestjs_homework.Base.Int.{ℤ, neg, ◌+ℤ◌}
use nestjs_homework.Base.Result.{Result, ok, err}
use nestjs_homework.Base.Table.{create}
use nestjs_homework.Contracts.{Uuid, CurrencyCode, Topic, tranfer_inited, deposit_paid_success}
use nestjs_homework.Outbox.{same_processed, has_key, ProcessedEvent}
use nestjs_homework.Balance.{Balance, BalanceDb, Fault, check_violation}
use nestjs_homework.Balance.Repository.{
  of_account, has_id, amount_ok, find_balance, find_processed, increment_amount, create_processed,
  create_outbox, Fresh, DepositArgs, TransferArgs, credit, move_funds, checked_pair,
  locked_balances, insert_by_account, order_by_account, sort_pair,
}
use nestjs_homework.Balance.Rows.{find_sender, find_receiver}
use nestjs_homework.Balance.Effects.{credited, processed, transfer_event, deposit_event}
use nestjs_homework.Balance.Ready.{find-has_id-credited_other}
use nestjs_homework.Balance.Ledger.{may_pay, entry_of}

-- What `uuidv7()` draws is new.
pub record IsFreshIds (fresh : Fresh) (db : BalanceDb) : Type 0 where
  pub new_processed : any (λ e. e.id == fresh.processed_id) db.processed_events ≡ false
  pub new_event_id : any (λ e. e.id == fresh.outbox_id) db.outbox_events ≡ false

-- An account has one balance in a currency.
abbrev pub OnePerAccount : List Balance → Type 0
OnePerAccount [] = Unit
OnePerAccount (b ∷ rows) =
    (find (of_account b.account_id b.currency) rows ≡ none) × OnePerAccount rows

pub no_conflict :
    (fresh : Fresh) (key : Uuid) (topic : Topic) (rows : List ProcessedEvent)
    → any (λ e. e.id == fresh.processed_id) rows ≡ false
    → find (has_key key) rows ≡ none
    → any (same_processed (processed fresh key topic)) rows ≡ false
no_conflict fresh key topic [] h k = refl
no_conflict fresh key topic (e ∷ rows) h k = ground (arith, no_conflict fresh key topic rows)

increment_amount_lem :
    (id : Uuid) (delta : ℤ) (db : BalanceDb) (b : Balance)
    → find (has_id id) db.balances ≡ some b
    → increment_amount id delta db ≡ (
        if amount_ok (b.amount +ℤ delta)
        then ok (tt, record db { balances = credited delta id db.balances })
        else err check_violation)
unfolding increment_amount
increment_amount_lem id delta db b found = rw (increment_amount, found) refl

abbrev pub after_credit : Fresh → DepositArgs → Balance → BalanceDb → BalanceDb
after_credit fresh a b db = record {
  balances = credited a.amount b.id db.balances;
  processed_events =
      db.processed_events ++ processed fresh a.idempotency_key deposit_paid_success ∷ [];
  outbox_events = db.outbox_events ++ deposit_event fresh a b ∷ [];
}

-- A credit under a new key fails only where the balance would leave its range.
pub credit_lem :
    (fresh : Fresh) (a : DepositArgs) (b : Balance) (db : BalanceDb)
    → IsFreshIds fresh db
    → find_processed a.idempotency_key db ≡ none
    → find (has_id b.id) db.balances ≡ some b
    → credit fresh a b db ≡ (
        if amount_ok (b.amount +ℤ a.amount)
        then ok (tt, after_credit fresh a b db)
        else err check_violation)
unfolding credit create_processed create_outbox create find_processed
credit_lem fresh a b db new key found = ground (
  arith,
  increment_amount_lem b.id a.amount db b found,
  no_conflict fresh a.idempotency_key deposit_paid_success db.processed_events new.new_processed
      key,
  new.new_event_id,
)

abbrev pub after_move : Fresh → TransferArgs → Balance → Balance → BalanceDb → BalanceDb
after_move fresh a s r db = record {
  balances = credited a.amount r.id (credited (neg a.amount) s.id db.balances);
  processed_events = db.processed_events ++ processed fresh a.idempotency_key tranfer_inited ∷ [];
  outbox_events = db.outbox_events ++ transfer_event fresh a s ∷ [];
}

-- After its guards a transfer fails only where one of the balances would leave its range.
pub move_funds_lem :
    (fresh : Fresh) (a : TransferArgs) (s r : Balance) (db : BalanceDb)
    → IsFreshIds fresh db
    → find_processed a.idempotency_key db ≡ none
    → find (has_id s.id) db.balances ≡ some s
    → find (has_id r.id) db.balances ≡ some r
    → r.id ≢ s.id
    → move_funds fresh a s r db ≡ (
        if amount_ok (s.amount +ℤ neg a.amount) && amount_ok (r.amount +ℤ a.amount)
        then ok (tt, after_move fresh a s r db)
        else err check_violation)
unfolding move_funds create_processed create_outbox create find_processed
move_funds_lem fresh a s r db new key fs fr ne =
    let d = record db { balances = credited (neg a.amount) s.id db.balances } in
    ground (
      arith,
      increment_amount_lem s.id (neg a.amount) db s fs,
      increment_amount_lem r.id a.amount d r
          (find-has_id-credited_other r.id s.id (neg a.amount) db.balances r ne fr),
      no_conflict fresh a.idempotency_key tranfer_inited db.processed_events new.new_processed key,
      new.new_event_id,
    )

length-insert_by_account :
    (b : Balance) (rows : List Balance) → length (insert_by_account b rows) ≡ length rows + 1
unfolding insert_by_account
length-insert_by_account b [] = omega arith
length-insert_by_account b (x ∷ rows) = ground (arith, length-insert_by_account b rows)

length-order_by_account : (rows : List Balance) → length (order_by_account rows) ≡ length rows
unfolding order_by_account
length-order_by_account [] = refl
length-order_by_account (x ∷ rows) =
    omega (arith, length-insert_by_account x (order_by_account rows), length-order_by_account rows)

abbrev is_own : Uuid → CurrencyCode → Balance → Bool
is_own x c b = elem b.account_id ((sort_pair x x).0 ∷ (sort_pair x x).1 ∷ []) && b.currency == c

none_own :
    (x : Uuid) (c : CurrencyCode) (rows : List Balance)
    → find (of_account x c) rows ≡ none
    → length (filter (is_own x c) rows) ≡ 0
none_own x c [] h = refl
none_own x c (b ∷ rows) h = ground (arith, none_own x c rows)

one_own :
    (x : Uuid) (c : CurrencyCode) (rows : List Balance)
    → OnePerAccount rows
    → ltb (length (filter (is_own x c) rows)) 2 ≡ true
one_own x c [] h = refl
one_own x c (b ∷ rows) h = ground (arith, one_own x c rows h.1, none_own x c rows)

self_locks_one :
    (x : Uuid) (c : CurrencyCode) (db : BalanceDb)
    → OnePerAccount db.balances
    → ltb (length (locked_balances x x c db)) 2 ≡ true
unfolding locked_balances
self_locks_one x c db one =
    ground (
      arith,
      length-order_by_account (filter (is_own x c) db.balances),
      one_own x c db.balances one,
    )

abbrev pub is_ok : {E A : Type 0} → Result E A → Bool
is_ok (ok a) = true
is_ok (err e) = false

abbrev pub guards : TransferArgs → BalanceDb → Result Fault (Balance × Balance)
guards a db = checked_pair a (locked_balances a.from_account_id a.to_account_id a.currency db)

self_refused :
    (a : TransferArgs) (db : BalanceDb)
    → OnePerAccount db.balances
    → a.from_account_id ≡ a.to_account_id
    → is_ok (guards a db) ≡ false
unfolding checked_pair
self_refused a db one same =
    let few : ltb (length (locked_balances a.from_account_id a.to_account_id a.currency db)) 2
        ≡ true =
      subst (λ y. ltb (length (locked_balances a.from_account_id y a.currency db)) 2 ≡ true) same
        (self_locks_one a.from_account_id a.currency db one) in
    rw few refl

-- Among the rows that a transfer locks the guards refuse what the ledger refuses.
pub guards_refuse :
    (a : TransferArgs) (db : BalanceDb) (s r : Balance)
    → OnePerAccount db.balances
    → find_balance a.from_account_id a.currency db ≡ some s
    → find_balance a.to_account_id a.currency db ≡ some r
    → may_pay a (entry_of s) (entry_of r) ≡ false
    → is_ok (guards a db) ≡ false
unfolding checked_pair
guards_refuse a db s r one fs fr refused =
    elim (Bool-cases (a.from_account_id == a.to_account_id)) [
      | inl same ↦ self_refused a db one (ground arith)
      | inr other ↦
          let at_s = find_sender a.from_account_id a.to_account_id a.currency db ∙ fs in
          let at_r = find_receiver a.from_account_id a.to_account_id a.currency db ∙ fr in
          ground (arith, at_s, at_r)
    ]

-- With no entry of one of the accounts the guards refuse.
pub guards_missing :
    (a : TransferArgs) (db : BalanceDb)
    → (find_balance a.from_account_id a.currency db ≡ none)
      ⊎ (find_balance a.to_account_id a.currency db ≡ none)
    → is_ok (guards a db) ≡ false
unfolding checked_pair
guards_missing a db (inl h) =
    let at_s = find_sender a.from_account_id a.to_account_id a.currency db ∙ h in
    ground (arith, at_s)
guards_missing a db (inr h) =
    let at_r = find_receiver a.from_account_id a.to_account_id a.currency db ∙ h in
    elim (Option-cases (
      find (λ b. b.account_id == a.from_account_id)
        (locked_balances a.from_account_id a.to_account_id a.currency db))) [
          | inl e ↦ ground (arith, at_r, e)
          | inr (w, e) ↦ ground (arith, at_r, e)
        ]
