-- ===== src/Balance/Funds.antt =====
-- Where the money goes in a transfer: the two accounts, all others, and the total.
use nestjs_homework.Base.{
  subst, none, some, List, [], ◌∷◌, ◌≡◌, ◌≢◌, ◌⊎◌, refl, sym, ◌∙◌, ◌==◌, find, arith, Option-cases,
  inl, inr, if◌then◌else◌,
}
use nestjs_homework.Base.Int.{ℤ, pos, neg, ◌+ℤ◌, +ℤ-zero}
use nestjs_homework.Base.Result.{ok, transact, Result-cases, transact_cases}
use nestjs_homework.Contracts.{Uuid, CurrencyCode}
use nestjs_homework.Balance.{Balance, BalanceDb}
use nestjs_homework.Balance.Repository.{
  of_account, has_id, add_amount, find_balance, find_processed, Fresh, TransferArgs, transfer_body,
  checked_pair, locked_balances, transfer_and_create_outbox_event,
}
use nestjs_homework.Base.Table.{update_first}
use nestjs_homework.Balance.Rows.{DistinctIds, find-has_id, find-add_amount}
use nestjs_homework.Balance.Effects.{credited, Cleared}
use nestjs_homework.Balance.Transfer.{
  Transferred, transfer_body-Transferred, transfer-Transferred, transfer_body_new,
}
use nestjs_homework.Balance.Total.{total, Moves, move_funds-Moves}

find-has_id-credited :
    (id k : Uuid) (delta : ℤ) (rows : List Balance)
    → find (has_id id) rows ≡ none
    → find (has_id id) (credited delta k rows) ≡ none
unfolding update_first
find-has_id-credited id k delta [] h = refl
find-has_id-credited id k delta (b ∷ rows) h = ground (arith, find-has_id-credited id k delta rows)

pub credited-DistinctIds :
    (delta : ℤ) (k : Uuid) (rows : List Balance)
    → DistinctIds rows
    → DistinctIds (credited delta k rows)
unfolding update_first
credited-DistinctIds delta k [] h = tt
credited-DistinctIds delta k (b ∷ rows) h =
    ground
      (arith, credited-DistinctIds delta k rows h.1, find-has_id-credited b.id k delta rows h.0)

pub found_account :
    (x : Uuid) (c : CurrencyCode) (rows : List Balance) (b : Balance)
    → find (of_account x c) rows ≡ some b
    → (b.account_id ≡ x) × (b.currency ≡ c)
found_account x c [] b e = cc
found_account x c (w ∷ rows) b e = ground (arith, found_account x c rows b)

-- Rows of two accounts, or of two currencies, have two ids.
pub ids_differ :
    (x y : Uuid) (c k : CurrencyCode) (rows : List Balance) (s r : Balance)
    → DistinctIds rows
    → (x ≢ y) ⊎ (c ≢ k)
    → find (of_account x c) rows ≡ some s
    → find (of_account y k) rows ≡ some r
    → s.id ≢ r.id
ids_differ x y c k rows s r d ne es er same = ground (
  arith,
  find-has_id x c rows s d es,
  find-has_id y k rows r d er,
  found_account x c rows s es,
  found_account y k rows r er,
)

-- The row of an account after both updates of a transfer.
find-moved :
    (x : Uuid) (c : CurrencyCode) (k l : Uuid) (d e : ℤ) (rows : List Balance) (b : Balance)
    → DistinctIds rows
    → find (of_account x c) rows ≡ some b
    → find (of_account x c) (credited e l (credited d k rows)) ≡ (
        if b.id == k
        then (if b.id == l then some (add_amount e (add_amount d b)) else some (add_amount d b))
        else if b.id == l
        then some (add_amount e b)
        else some b)
find-moved x c k l d e rows b h f = ground (
  arith,
  find-add_amount x c k d rows h,
  find-add_amount x c l e (credited d k rows) (credited-DistinctIds d k rows h),
)

find-moved_none :
    (x : Uuid) (c : CurrencyCode) (k l : Uuid) (d e : ℤ) (rows : List Balance)
    → DistinctIds rows
    → find (of_account x c) rows ≡ none
    → find (of_account x c) (credited e l (credited d k rows)) ≡ none
find-moved_none x c k l d e rows h f = ground (
  arith,
  find-add_amount x c k d rows h,
  find-add_amount x c l e (credited d k rows) (credited-DistinctIds d k rows h),
)

module _ (fresh : Fresh) (a : TransferArgs) (db db' : BalanceDb) (d : DistinctIds db.balances) where
  Transferred-from_to :
      a.from_account_id ≢ a.to_account_id
      → (t : Transferred fresh a db db')
      → (find_balance a.from_account_id a.currency db'
          ≡ some (add_amount (neg a.amount) t.from_row))
        × (find_balance a.to_account_id a.currency db' ≡ some (add_amount a.amount t.to_row))
  unfolding find_balance
  Transferred-from_to ne t =
      let s = t.from_row in
      let r = t.to_row in
      let es = t.cleared.sender in
      let er = t.cleared.receiver in
      let apart =
        ids_differ a.from_account_id a.to_account_id a.currency a.currency db.balances s r d
          (inl ne) es er in
      rw t.moved (
        ground (
          arith,
          find-moved a.from_account_id a.currency s.id r.id (neg a.amount) a.amount db.balances s d
              es,
          apart,
        ),
        ground (
          arith,
          find-moved a.to_account_id a.currency s.id r.id (neg a.amount) a.amount db.balances r d
              er,
          apart,
        ),
      )

  Transferred-other :
      (x : Uuid) (c : CurrencyCode)
      → (x ≢ a.from_account_id) ⊎ (c ≢ a.currency)
      → (x ≢ a.to_account_id) ⊎ (c ≢ a.currency)
      → Transferred fresh a db db'
      → find_balance x c db' ≡ find_balance x c db
  unfolding find_balance
  Transferred-other x c nf nt t =
      let s = t.from_row in
      let r = t.to_row in
      rw t.moved (elim (Option-cases (find (of_account x c) db.balances)) [
        | inl e ↦ find-moved_none x c s.id r.id (neg a.amount) a.amount db.balances d e ∙ sym e
        | inr (b, e) ↦ ground (
          arith,
          find-moved x c s.id r.id (neg a.amount) a.amount db.balances b d e,
          ids_differ x a.from_account_id c a.currency db.balances b s d nf e t.cleared.sender,
          ids_differ x a.to_account_id c a.currency db.balances b r d nt e t.cleared.receiver,
        )
      ])

module _ (fresh : Fresh) (a : TransferArgs) (db : BalanceDb) where
  abbrev after : BalanceDb
  after = (transfer_and_create_outbox_event fresh a db).1

  -- Between two accounts, a transfer that succeeds under a new key takes the amount, which the
  -- sender's balance covers, from that balance and adds it to the receiver's; neither was blocked.
  pub transfer_moves_funds :
      DistinctIds db.balances
      → a.from_account_id ≢ a.to_account_id
      → find_processed a.idempotency_key db ≡ none
      → (transfer_and_create_outbox_event fresh a db).0 ≡ ok tt
      → (s : Balance) × (r : Balance) × Cleared a db s r
        × (find_balance a.from_account_id a.currency after ≡ some (add_amount (neg a.amount) s))
        × (find_balance a.to_account_id a.currency after ≡ some (add_amount a.amount r))
  transfer_moves_funds d ne new done =
      let t = transfer-Transferred fresh a db new done in
      let both = Transferred-from_to fresh a db after d ne t in
      (t.from_row, t.to_row, t.cleared, both.0, both.1)

-- A call that finds its key recorded succeeds and changes nothing.
pub transfer_repeated :
    (fresh : Fresh) (a : TransferArgs) (db : BalanceDb)
    → find_processed a.idempotency_key db ≢ none
    → transfer_and_create_outbox_event fresh a db ≡ (ok tt, db)
unfolding transfer_and_create_outbox_event transact transfer_body
transfer_repeated fresh a db h = ground arith

-- Whatever its arguments and its outcome, a transfer leaves every balance alone but that of the two
-- accounts in its currency.
pub transfer_others :
    (fresh : Fresh) (a : TransferArgs) (db : BalanceDb) (x : Uuid) (c : CurrencyCode)
    → DistinctIds db.balances
    → (x ≢ a.from_account_id) ⊎ (c ≢ a.currency)
    → (x ≢ a.to_account_id) ⊎ (c ≢ a.currency)
    → find_balance x c (transfer_and_create_outbox_event fresh a db).1 ≡ find_balance x c db
unfolding transfer_and_create_outbox_event
transfer_others fresh a db x c d nf nt = elim (Option-cases (find_processed a.idempotency_key db)) [
  | inl new ↦ elim (transact_cases (transfer_body fresh a) db) [
    | inl (p, e, run) ↦ rw run (
        Transferred-other fresh a db p.1 d x c nf nt
          (transfer_body-Transferred fresh a db p.1 new (e)))
    | inr (x, e, run) ↦ rw run
  ]
  | inr (v, old) ↦ rw (transfer_repeated fresh a db (λ h. cc))
]

transfer_body-Moves :
    (fresh : Fresh) (a : TransferArgs) (db : BalanceDb)
    → find_processed a.idempotency_key db ≡ none
    → Moves db (pos 0) (transfer_body fresh a db)
transfer_body-Moves fresh a db new =
    rw (transfer_body_new fresh a db new)
      (elim (Result-cases
        (checked_pair a (locked_balances a.from_account_id a.to_account_id a.currency db))) [
          | inl (p, e) ↦ rw e (move_funds-Moves fresh a p.0 p.1 db)
          | inr (x, e) ↦ rw e tt
        ])

-- A transfer neither makes nor destroys money: the sum of all balances stays, whatever the outcome.
pub transfer_conserves :
    (fresh : Fresh) (a : TransferArgs) (db : BalanceDb)
    → total (transfer_and_create_outbox_event fresh a db).1 ≡ total db
unfolding transfer_and_create_outbox_event
transfer_conserves fresh a db = elim (Option-cases (find_processed a.idempotency_key db)) [
  | inl new ↦ elim (transact_cases (transfer_body fresh a) db) [
    | inl (p, e, run) ↦
        let moved : total p.1 ≡ total db +ℤ pos 0 =
          subst (Moves db (pos 0)) e (transfer_body-Moves fresh a db new) in
        rw run (moved ∙ +ℤ-zero _)
    | inr (x, e, run) ↦ rw run
  ]
  | inr (v, old) ↦ rw (transfer_repeated fresh a db (λ h. cc))
]
