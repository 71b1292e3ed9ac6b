-- ===== src/Auth/Opening.antt =====
-- The balances of a new account, as the ledger reads them.
use nestjs_homework.Base.{
  ℕ, Bool, false, none, some, List, [], ◌∷◌, ◌++◌, ◌≡◌, ◌≢◌, ◌∙◌, refl, sym, ap, subst, arith, ◌==◌,
  ◌&&◌, ◌||◌, any, find, if◌then◌else◌, Option-cases, Bool-cases, inl, inr,
}
use mathlib.Core.Path.{fun_ext}
use nestjs_homework.Base.Int.{pos}
use nestjs_homework.Base.Table.{create}
use nestjs_homework.Contracts.{Uuid, CurrencyCode, rub, usd, usdt}
use nestjs_homework.Balance.{Balance}
use nestjs_homework.Balance.Repository.{of_account, has_id}
use nestjs_homework.Balance.Rows.{DistinctIds}
use nestjs_homework.Balance.Ledger.{Entry, Entries, entry_of}
use nestjs_homework.Balance.Ledger.Views.{entries}
use nestjs_homework.Balance.Ledger.Guards.{OnePerAccount}
use nestjs_homework.Auth.{AuthState, Services}
use nestjs_homework.Auth.Repository.{
  AccountDraws, NewAccount, same_balance, balance_row, balance_rows, create_many,
}
use nestjs_homework.Auth.Service.{register}
use nestjs_homework.Auth.SignUp.{IsNewcomer, register_joins}

create_appends :
    (b : Balance) (rows rows' : List Balance)
    → create same_balance b rows ≡ some rows'
    → (any (same_balance b) rows ≡ false) × (rows' ≡ rows ++ b ∷ [])
unfolding create
create_appends b rows rows' h = elim (Bool-cases (any (same_balance b) rows)) [
  | inl taken ↦ absurd (ground arith)
  | inr free ↦ (free, ground arith)
]

absent-append :
    (p : Balance → Bool) (rows : List Balance) (b : Balance)
    → find p rows ≡ none
    → p b ≡ false
    → find p (rows ++ b ∷ []) ≡ none
absent-append p [] b h e = ground arith
absent-append p (r ∷ rows) b h e = ground (arith, absent-append p rows b)

append-DistinctIds :
    (b : Balance) (rows : List Balance)
    → any (same_balance b) rows ≡ false
    → DistinctIds rows
    → DistinctIds (rows ++ b ∷ [])
append-DistinctIds b [] h d = (refl, tt)
append-DistinctIds b (r ∷ rows) h d = (
  absent-append (has_id r.id) rows b d.0 (ground arith),
  append-DistinctIds b rows (ground arith) d.1,
)

append-OnePerAccount :
    (b : Balance) (rows : List Balance)
    → find (of_account b.account_id b.currency) rows ≡ none
    → OnePerAccount rows
    → OnePerAccount (rows ++ b ∷ [])
append-OnePerAccount b [] h d = (refl, tt)
append-OnePerAccount b (r ∷ rows) h d = (
  absent-append (of_account r.account_id r.currency) rows b d.0 (ground arith),
  append-OnePerAccount b rows (ground arith) d.1,
)

entries-append :
    (b : Balance) (rows : List Balance) (x : Uuid) (c : CurrencyCode)
    → find (of_account b.account_id b.currency) rows ≡ none
    → entries (rows ++ b ∷ []) x c
      ≡ (if x == b.account_id && c == b.currency then some (entry_of b) else entries rows x c)
entries-append b [] x c h = ground arith
entries-append b (r ∷ rows) x c h = ground (arith, entries-append b rows x c)

-- The tables of balances are well formed.
pub record IsOrderly (rows : List Balance) : Type 0 where
  pub ids : DistinctIds rows
  pub one : OnePerAccount rows

-- No account has a balance yet where one of the new rows stands.
abbrev AreNew : List Balance → List Balance → Type 0
AreNew [] rows = Unit
AreNew (b ∷ bs) rows =
    (find (of_account b.account_id b.currency) rows ≡ none) × AreNew bs (rows ++ b ∷ [])

abbrev placed : List Balance → Entries → Entries
placed [] f x c = f x c
placed (b ∷ bs) f x c =
    placed bs (λ y k. if y == b.account_id && k == b.currency then some (entry_of b) else f y k) x c

placed_ext :
    (bs : List Balance) (f g : Entries) (x : Uuid) (c : CurrencyCode)
    → ((y : Uuid) (k : CurrencyCode) → f y k ≡ g y k)
    → placed bs f x c ≡ placed bs g x c
placed_ext bs f g x c h = ap (λ t. placed bs t x c) (fun_ext λ y. fun_ext λ k. h y k)

create_many_lem :
    (bs rows opened : List Balance)
    → create_many bs rows ≡ some opened
    → AreNew bs rows
    → IsOrderly rows
    → IsOrderly opened
      × ((x : Uuid) (c : CurrencyCode) → entries opened x c ≡ placed bs (entries rows) x c)
unfolding create_many
create_many_lem [] rows opened made new good =
    let same : rows ≡ opened = cc in
    (subst IsOrderly same good, (λ x c. ap (λ t. entries t x c) (sym same)))
create_many_lem (b ∷ bs) rows opened made new good =
    elim (Option-cases (create same_balance b rows)) [
      | inl taken ↦ absurd (ground arith)
      | inr (rows', e) ↦
          let (free, same) = create_appends b rows rows' e in
          let good' : IsOrderly (rows ++ b ∷ []) = record {
            ids = append-DistinctIds b rows free good.ids;
            one = append-OnePerAccount b rows new.0 good.one;
          } in
          let made' : create_many bs (rows ++ b ∷ []) ≡ some opened = ground arith in
          let (well, reads) = create_many_lem bs (rows ++ b ∷ []) opened made' new.1 good' in
          (
            well,
            (λ x c. reads x c ∙ placed_ext bs _ _ x c (λ y k. entries-append b rows y k new.0)),
          )
    ]

abbrev pub empty_entry : Entry
empty_entry = record { amount = pos 0; blocked_at = none }

abbrev pub is_supported : CurrencyCode → Bool
is_supported c = c == rub || c == usd || c == usdt

three_AreNew :
    (d : AccountDraws) (rows : List Balance)
    → ((c : CurrencyCode) → find (of_account d.account_id c) rows ≡ none)
    → AreNew (balance_rows d) rows
three_AreNew d rows absent =
    let second = λ (c : CurrencyCode) (ne : c ≢ rub).
      absent-append (of_account d.account_id c) rows (balance_row d.rub_id rub d.account_id)
        (absent c) (ground arith) in
    (
      absent rub,
      (
        second usd (omega arith),
        (
          absent-append (of_account d.account_id usdt) _ (balance_row d.usd_id usd d.account_id)
              (second usdt (omega arith)) (ground arith),
          tt,
        ),
      ),
    )

-- A registration opens a balance of nothing in each of the three currencies for the new account, and no other entry of the ledger
-- changes; the tables of balances stay well formed, where the new account had no balance.
pub register_opens :
    (env : Services) (draws : AccountDraws) (salt code : ℕ) (new : NewAccount) (s : AuthState)
    → IsNewcomer draws new s
    → ((c : CurrencyCode) → find (of_account draws.account_id c) s.balances ≡ none)
    → IsOrderly s.balances
    → let after = (register env draws salt code new s).1 in
      IsOrderly after.balances
      × ((x : Uuid) (c : CurrencyCode)
          → entries after.balances x c ≡ (
              if x == draws.account_id && is_supported c
              then some empty_entry
              else entries s.balances x c))
register_opens env draws salt code new s n absent good =
    let (well, reads) =
      create_many_lem (balance_rows draws) s.balances n.opened n.balances_free
        (three_AreNew draws s.balances absent) good in
    rw (register_joins env draws salt code new s n) (well, (λ x c. reads x c ∙ ground arith))
