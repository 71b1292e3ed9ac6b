-- ===== src/Balance/Ready.antt =====
-- When a transfer succeeds: the guards of `transferAndCreateOutboxEvent` refuse nothing else.
use nestjs_homework.Base.{
  true, false, none, some, List, [], ◌∷◌, ◌++◌, ◌≡◌, ◌≢◌, refl, sym, arith, ◌==◌, find, any, length,
  ltb, inl, ◌∙◌,
}
use nestjs_homework.Base.Int.{ℤ, pos, neg, ◌+ℤ◌, ◌-ℤ◌, ◌≤ℤ◌, fits_int8}
use nestjs_homework.Base.Result.{ok, transact}
use nestjs_homework.Base.Table.{create, update_first}
use nestjs_homework.Contracts.{Uuid, tranfer_inited}
use nestjs_homework.Outbox.{same_processed, has_key, ProcessedEvent}
use nestjs_homework.Balance.{Balance, BalanceDb}
use nestjs_homework.Balance.Repository.{
  has_id, amount_ok, find_balance, find_processed, increment_amount, create_processed,
  create_outbox, Fresh, TransferArgs, move_funds, checked_pair, locked_balances, transfer_body,
  transfer_and_create_outbox_event,
}
use nestjs_homework.Balance.Rows.{DistinctIds, find_sender, find_receiver, find-has_id}
use nestjs_homework.Balance.Effects.{credited, processed, transfer_event, Cleared}
use nestjs_homework.Balance.Transfer.{transfer_body_new}
use nestjs_homework.Balance.Funds.{ids_differ}

pub two_rows :
    (x y : Uuid) (rows : List Balance) (s r : Balance)
    → x ≢ y
    → find (λ b. b.account_id == x) rows ≡ some s
    → find (λ b. b.account_id == y) rows ≡ some r
    → ltb (length rows) 2 ≡ false
two_rows x y [] s r ne h k = cc
two_rows x y (b ∷ []) s r ne h k = ground arith
two_rows x y (b ∷ c ∷ rows) s r ne h k = ground arith

-- The guards pass on the rows of two accounts that are open, where the sender's covers the amount.
pub checked_pair_of_Cleared :
    (a : TransferArgs) (db : BalanceDb) (s r : Balance)
    → a.from_account_id ≢ a.to_account_id
    → Cleared a db s r
    → checked_pair a (locked_balances a.from_account_id a.to_account_id a.currency db) ≡ ok (s, r)
unfolding checked_pair
checked_pair_of_Cleared a db s r ne c =
    let rows = locked_balances a.from_account_id a.to_account_id a.currency db in
    let at_s = find_sender a.from_account_id a.to_account_id a.currency db ∙ c.sender in
    let at_r = find_receiver a.from_account_id a.to_account_id a.currency db ∙ c.receiver in
    let two = two_rows a.from_account_id a.to_account_id rows s r ne at_s at_r in
    ground (arith, at_s, at_r, two, c.sender_open, c.receiver_open, c.covered)

pub find-has_id-credited_other :
    (id k : Uuid) (delta : ℤ) (rows : List Balance) (b : Balance)
    → id ≢ k
    → find (has_id id) rows ≡ some b
    → find (has_id id) (credited delta k rows) ≡ some b
unfolding update_first
find-has_id-credited_other id k delta [] b ne h = cc
find-has_id-credited_other id k delta (x ∷ rows) b ne h =
    ground (arith, find-has_id-credited_other id k delta rows b ne)

-- What `uuidv7()` draws for the rows of a call, and the key of the message, are new.
pub record IsFresh (fresh : Fresh) (key : Uuid) (db : BalanceDb) : Type 0 where
  pub new_processed :
      any (same_processed (processed fresh key tranfer_inited)) db.processed_events ≡ false
  pub new_event_id : any (λ e. e.id == fresh.outbox_id) db.outbox_events ≡ false

key_new :
    (e : ProcessedEvent) (rows : List ProcessedEvent)
    → any (same_processed e) rows ≡ false
    → find (has_key e.idempotency_key) rows ≡ none
key_new e [] h = refl
key_new e (x ∷ rows) h = ground (arith, key_new e rows)

pub find_processed-IsFresh :
    (fresh : Fresh) (key : Uuid) (db : BalanceDb)
    → IsFresh fresh key db
    → find_processed key db ≡ none
unfolding find_processed
find_processed-IsFresh fresh key db new =
    key_new (processed fresh key tranfer_inited) db.processed_events new.new_processed

debit_ok :
    (amount balance : ℤ)
    → pos 0 ≤ℤ amount
    → amount ≤ℤ balance
    → amount_ok balance ≡ true
    → amount_ok (balance +ℤ neg amount) ≡ true
unfolding fits_int8 ◌+ℤ◌ ◌-ℤ◌
debit_ok amount balance h k fits = ground arith

increment_succeeds :
    (id : Uuid) (delta : ℤ) (db : BalanceDb) (b : Balance)
    → find (has_id id) db.balances ≡ some b
    → amount_ok (b.amount +ℤ delta) ≡ true
    → increment_amount id delta db ≡ ok (tt, record db { balances = credited delta id db.balances })
unfolding increment_amount
increment_succeeds id delta db b f fits = ground arith

abbrev after_move : Fresh → TransferArgs → Balance → Balance → BalanceDb → BalanceDb
after_move fresh a s r db = record {
  balances = credited a.amount r.id (credited (neg a.amount) s.id db.balances);
  processed_events = db.processed_events ++ processed fresh a.idempotency_key tranfer_inited ∷ [];
  outbox_events = db.outbox_events ++ transfer_event fresh a s ∷ [];
}

move_funds_succeeds :
    (fresh : Fresh) (a : TransferArgs) (s r : Balance) (db : BalanceDb)
    → find (has_id s.id) db.balances ≡ some s
    → find (has_id r.id) db.balances ≡ some r
    → r.id ≢ s.id
    → amount_ok (s.amount +ℤ neg a.amount) ≡ true
    → amount_ok (r.amount +ℤ a.amount) ≡ true
    → IsFresh fresh a.idempotency_key db
    → move_funds fresh a s r db ≡ ok (tt, after_move fresh a s r db)
unfolding move_funds create_processed create_outbox create
move_funds_succeeds fresh a s r db fs fr ne debit credit new =
    let d = record db { balances = credited (neg a.amount) s.id db.balances } in
    ground (
      arith,
      increment_succeeds s.id (neg a.amount) db s fs debit,
      increment_succeeds r.id a.amount d r
          (find-has_id-credited_other r.id s.id (neg a.amount) db.balances r ne fr) credit,
      new.new_processed,
      new.new_event_id,
    )

-- A transfer of an amount that is not negative, between two accounts that are found and open, succeeds
-- when the sender's balance covers the amount, the receiver's has room for it, and the key and the ids of
-- the new rows are not taken.
pub transfer_succeeds :
    (fresh : Fresh) (a : TransferArgs) (db : BalanceDb) (s r : Balance)
    → DistinctIds db.balances
    → a.from_account_id ≢ a.to_account_id
    → Cleared a db s r
    → pos 0 ≤ℤ a.amount
    → amount_ok s.amount ≡ true
    → amount_ok (r.amount +ℤ a.amount) ≡ true
    → IsFresh fresh a.idempotency_key db
    → (transfer_and_create_outbox_event fresh a db).0 ≡ ok tt
unfolding transfer_and_create_outbox_event transact find_processed find_balance
transfer_succeeds fresh a db s r d ne c positive fits room new =
    let apart =
      ids_differ a.from_account_id a.to_account_id a.currency a.currency db.balances s r d (inl ne)
        c.sender c.receiver in
    let moved =
      move_funds_succeeds fresh a s r db
        (find-has_id a.from_account_id a.currency db.balances s d c.sender)
        (find-has_id a.to_account_id a.currency db.balances r d c.receiver) (λ h. apart (sym h))
        (debit_ok a.amount s.amount positive c.covered fits) room new in
    let body : transfer_body fresh a db ≡ ok (tt, after_move fresh a s r db) =
      transfer_body_new fresh a db (
        key_new (processed fresh a.idempotency_key tranfer_inited) db.processed_events
          new.new_processed)
      ∙ rw (checked_pair_of_Cleared a db s r ne c) moved in
    rw (transact, body) refl
