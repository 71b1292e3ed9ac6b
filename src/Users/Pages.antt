-- ===== src/Users/Pages.antt =====
-- Following `nextCursor` from page to page.
use nestjs_homework.Base.{
  ℕ, zero, suc, Bool, true, false, Option, none, some, List, [], ◌∷◌, ◌++◌, ◌≡◌, ◌≢◌, ◌≤◌, ◌<◌, ◌+◌,
  refl, sym, ap, subst, ◌∙◌, arith, length, filter, take, drop, pop, last, ltb, Text, Bool-cases,
  inl, inr,
}
use mathlib.Core.Option
use nestjs_homework.Base.Slices.{
  pop-take, length-take_all, take_all, take-drop, drop-drop, last-take, last-take-drop, lt_of_drop,
  drop_lt,
}
use nestjs_homework.Base.Result.{ok, err}
use nestjs_homework.Contracts.{Uuid}
use nestjs_homework.Users.{UserDb, UserRow}
use nestjs_homework.Users.Repository.{truthy, wanted, positioned, matching, page_of, find_all, Page}
use nestjs_homework.Users.Order.{IsInOrder, ordered-IsInOrder}
use nestjs_homework.Users.Cursor.{DistinctRows, after_last}
use nestjs_homework.Users.Distinct.{
  DistinctAccounts, filter-DistinctAccounts, order-DistinctAccounts, map-DistinctRows,
}

module _ (spell : Uuid → Text) (contains : Text → ℕ → Bool) where
  -- A client that asks for the next page until there is none; `none` where a call fails or the fuel runs out.
  pub collect : ℕ → Option Text → ℕ → Option Text → UserDb → Option (List UserRow)
  collect zero cursor limit username db = none
  collect (suc fuel) cursor limit username db =
      elim (find_all spell contains cursor limit username db) [
        | err e ↦ none
        | ok page ↦ elim page.next_cursor [
          | none ↦ some page.items
          | some next ↦
              Option.map (λ rest. page.items ++ rest) (collect fuel (some next) limit username db)
        ]
      ]

  collect_last :
      (fuel : ℕ) (cursor : Option Text) (limit : ℕ) (username : Option Text) (db : UserDb)
      (page : Page)
      → find_all spell contains cursor limit username db ≡ ok page
      → page.next_cursor ≡ none
      → collect (suc fuel) cursor limit username db ≡ some page.items
  unfolding collect
  collect_last fuel cursor limit username db page h e = ground arith

  collect_next :
      (fuel : ℕ) (cursor : Option Text) (limit : ℕ) (username : Option Text) (db : UserDb)
      (page : Page) (next : Text) (rest : List UserRow)
      → find_all spell contains cursor limit username db ≡ ok page
      → page.next_cursor ≡ some next
      → collect fuel (some next) limit username db ≡ some rest
      → collect (suc fuel) cursor limit username db ≡ some (page.items ++ rest)
  unfolding collect
  collect_next fuel cursor limit username db page next rest h e k = ground arith

  -- A page of the rows that are left: all of them, or the first `limit` with a cursor.
  page_of-short :
      (limit : ℕ) (us : List UserRow)
      → length us ≤ limit
      → page_of spell contains limit (take (limit + 1) us)
        ≡ ok (record { items = us; next_cursor = none; has_next_page = false })
  unfolding page_of
  page_of-short limit us h = rw (take_all (limit + 1) us (omega arith)) (ground arith)

  page_of-long :
      (n : ℕ) (us : List UserRow) (u : UserRow)
      → suc n < length us
      → last (take (suc n) us) ≡ some u
      → page_of spell contains (suc n) (take (suc n + 1) us)
        ≡ ok (record {
          items = take (suc n) us;
          next_cursor = some (spell u.id);
          has_next_page = true;
        })
  unfolding page_of
  page_of-long n us u h e =
      let one : suc (suc n) ≡ suc n + 1 = omega arith in
      let more : length (take (suc n + 1) us) ≡ suc n + 1 =
        length-take_all (suc n + 1) us (omega arith) in
      let popped : pop (take (suc n + 1) us) ≡ take (suc n) us =
        subst (λ m. pop (take m us) ≡ take (suc n) us) one (pop-take (suc n) us h) in
      ground (arith, more, popped)

  truthy-nonempty : (t : Text) → t ≢ [] → truthy (some t) ≡ some t
  truthy-nonempty [] h = absurd (h refl)
  truthy-nonempty (c ∷ cs) h = refl

  module _ (apart : (x y : Uuid) → spell x ≡ spell y → x ≡ y) (nonempty : (x : Uuid) → spell x ≢ [])
      (n : ℕ) (username : Option Text) (db : UserDb)
      (d : DistinctRows (matching spell contains username db)) where
    abbrev rows : List UserRow
    rows = matching spell contains username db

    cursor_after :
        (k : ℕ) (u : UserRow)
        → suc n < length (drop k rows)
        → last (take (suc n) (drop k rows)) ≡ some u
        → positioned spell contains (truthy (some (spell u.id))) rows ≡ drop (k + suc n) rows
    cursor_after k u h e =
        let ahead = lt_of_drop n k rows (omega arith) in
        let at_end = sym (last-take-drop n k rows (omega arith)) ∙ e in
        let move : suc (k + n) ≡ k + suc n = omega arith in
        rw (truthy-nonempty (spell u.id) (nonempty u.id)) (
          after_last spell contains apart (k + n) rows u d ahead at_end
          ∙ ap (λ m. drop m rows) move)

    collect_rest :
        (fuel k : ℕ) (cursor : Option Text)
        → positioned spell contains (truthy cursor) rows ≡ drop k rows
        → length (drop k rows) < fuel
        → collect fuel cursor (suc n) username db ≡ some (drop k rows)
    unfolding find_all
    collect_rest zero k cursor at h = absurd (omega arith)
    collect_rest (suc fuel) k cursor at h =
        let asked = ap (λ us. page_of spell contains (suc n) (take (suc n + 1) us)) at in
        elim (Bool-cases (ltb (suc n) (length (drop k rows)))) [
          | inr few ↦
              collect_last fuel cursor (suc n) username db _
                (asked ∙ page_of-short (suc n) (drop k rows) (ground arith)) refl
          | inl many ↦
              let (u, e) = last-take n (drop k rows) (ground arith) in
              let fewer = drop_lt n k rows (ground arith) in
              let rest =
                collect_rest fuel (k + suc n) (some (spell u.id))
                  (cursor_after k u (ground arith) e) (omega arith) in
              collect_next fuel cursor (suc n) username db _ (spell u.id) (drop (k + suc n) rows)
                (asked ∙ page_of-long n (drop k rows) u (ground arith) e) refl rest
              ∙ ap some (
                  ap (λ us. take (suc n) (drop k rows) ++ us) (sym (drop-drop (suc n) k rows))
                  ∙ take-drop (suc n) (drop k rows))
        ]

  -- Whoever starts without a cursor and follows `nextCursor` gets every account that matches, once each and in the order of
  -- creation, where ids are distinct, the limit is positive and the texts of ids differ and are not empty; one call more than there are rows is enough.
  pub collect_all :
      ((x y : Uuid) → spell x ≡ spell y → x ≡ y)
      → ((x : Uuid) → spell x ≢ [])
      → (n : ℕ) (username : Option Text) (db : UserDb) → DistinctAccounts db.accounts
      → (collect (length (matching spell contains username db) + 1) none (suc n) username db
          ≡ some (matching spell contains username db))
        × IsInOrder (matching spell contains username db)
  unfolding matching
  collect_all apart nonempty n username db d =
      let distinct = map-DistinctRows db _ (
        order-DistinctAccounts _
          (filter-DistinctAccounts (wanted spell contains username) db.accounts d)) in
      (
        collect_rest apart nonempty n username db distinct _ 0 none refl (omega arith),
        ordered-IsInOrder db (filter (wanted spell contains username) db.accounts),
      )
