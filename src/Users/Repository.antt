-- ===== src/Users/Repository.antt =====
-- apps/user-service/src/core/repositories/users.repository.ts, one function for each query. `spell` is the text
-- of an id, and `contains` the database's test `ILIKE '%…%'` of a text on a user name.
use nestjs_homework.Base.{
  ℕ, Bool, true, Option, none, some, List, [], ◌∷◌, map, find, filter, length, take, drop, pop,
  last, ltb, leb, ◌==◌, ◌&&◌, ◌+◌, is_some, not, Text, same_text, if◌then◌else◌,
}
use mathlib.Core.Option
use nestjs_homework.Base.Result.{Result, ok, err}
use nestjs_homework.Contracts.{Uuid}
use nestjs_homework.Account
use nestjs_homework.Account.{Account}
use nestjs_homework.Users.{Profile, Avatar, UserDb, ProfileView, User, UserRow}

-- The profile with those of its avatars that the query selects.
abbrev pub profile_view : (Avatar → Bool) → UserDb → Profile → ProfileView
profile_view wanted db p = record {
  id = p.id;
  first_name = p.first_name;
  last_name = p.last_name;
  age = p.age;
  description = p.description;
  avatars =
      map {A = Avatar} (λ v. record { id = v.id; name = v.name })
        (filter (λ v. v.profile_id == p.id && wanted v) db.avatars);
}

unfoldable pub profile_of : (Avatar → Bool) → UserDb → Uuid → Option ProfileView
profile_of wanted db account =
    Option.map (profile_view wanted db) (find (λ p. p.account_id == account) db.profiles)

-- `where: { deletedAt: null }`
abbrev pub is_active : Avatar → Bool
is_active v = not (is_some v.deleted_at)

unfoldable pub find_by : Option Uuid → Option ℕ → Option ℕ → UserDb → Option User
find_by id email username db =
    Option.map {A = Account}
      (λ a. record {
        id = a.id;
        username = a.username;
        email = a.email;
        role = a.role;
        created_at = a.created_at;
        deleted_at = a.deleted_at;
        profile = profile_of is_active db a.id;
      })
      (Account.find_by id email username db.accounts)

-- `orderBy: { createdAt: 'asc' }`, stable.
unfoldable pub insert_by_created : Account → List Account → List Account
insert_by_created a [] = a ∷ []
insert_by_created a (x ∷ xs) =
    if leb a.created_at x.created_at then a ∷ x ∷ xs else x ∷ insert_by_created a xs

unfoldable pub order_by_created : List Account → List Account
unfolding insert_by_created
order_by_created [] = []
order_by_created (x ∷ xs) = insert_by_created x (order_by_created xs)

unfoldable pub user_row : UserDb → Account → UserRow
user_row db a = record {
  id = a.id;
  username = a.username;
  email = a.email;
  created_at = a.created_at;
  profile = profile_of (λ v. true) db a.id;
}

-- A text that is `undefined` or empty counts as absent.
abbrev pub truthy : Option Text → Option Text
truthy none = none
truthy (some []) = none
truthy (some (c ∷ cs)) = some (c ∷ cs)

-- An answer of `findAll`; `hasNextPage` says whether there is a next cursor.
pub record Page : Type 0 where
  pub items : List UserRow
  pub next_cursor : Option Text
  pub has_next_page : Bool

-- The `TypeError` of reading the id of no row.
pub data UsersFault : Type 0 where
  type_error : UsersFault

module _ (spell : Uuid → Text) (contains : Text → ℕ → Bool) where
  -- `where`
  abbrev pub wanted : Option Text → Account → Bool
  wanted username a = elim (truthy username) [ none ↦ true | some t ↦ contains t a.username ]

  -- The rows from the cursor's on; none if there is no such row.
  unfoldable pub from_cursor : Text → List UserRow → List UserRow
  from_cursor cursor [] = []
  from_cursor cursor (u ∷ us) =
      let rest = from_cursor cursor us in if same_text (spell u.id) cursor then u ∷ us else rest

  -- `cursor` and `skip`
  abbrev pub positioned : Option Text → List UserRow → List UserRow
  positioned none us = us
  positioned (some cursor) us = drop 1 (from_cursor cursor us)

  -- The rows of the query before `cursor`, `skip` and `take`.
  unfoldable pub matching : Option Text → UserDb → List UserRow
  matching username db = map (user_row db) (order_by_created (filter (wanted username) db.accounts))

  unfoldable pub page_of : ℕ → List UserRow → Result UsersFault Page
  page_of limit accounts =
      if ltb limit (length accounts)
      then elim (last (pop accounts)) [
        | none ↦ err type_error
        | some u ↦
            ok (record {
              items = pop accounts;
              next_cursor = some (spell u.id);
              has_next_page = true;
            })
      ]
      else ok (record { items = accounts; next_cursor = none; has_next_page = Bool.false })

  unfoldable pub find_all : Option Text → ℕ → Option Text → UserDb → Result UsersFault Page
  unfolding page_of
  find_all cursor limit username db =
      page_of limit (take (limit + 1) (positioned (truthy cursor) (matching username db)))
