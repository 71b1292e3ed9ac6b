-- ===== src/Users/Tests.antt =====
-- Pages of users and their cache on a few accounts.
use nestjs_homework.Base.{
  map, codes, ℕ, Bool, true, false, none, some, List, [], ◌∷◌, ◌≡◌, ◌≢◌, refl, arith, Text, elem,
  same_text, same_text_eq, same_text_refl, ◌||◌, Bool-cases, inl, inr,
}
use nestjs_homework.Base.Result.{err}
use nestjs_homework.Contracts.{Uuid, user}
use nestjs_homework.Account.{Account}
use nestjs_homework.Account
use nestjs_homework.Users.{UserDb, Avatar}
use nestjs_homework.Users.Repository
use nestjs_homework.Users.Repository.{
  insert_by_created, order_by_created, user_row, profile_of, matching, page_of, from_cursor,
  find_all, type_error, Page,
}
use nestjs_homework.Users.Active.{ActiveUser, newest, active_among, find_active}
use nestjs_homework.Users.Order.{IsInOrder}
use nestjs_homework.Users.Pages.{collect, collect_all}
use nestjs_homework.Users.Cache.{users_key, delete_key, set_buffers, get_buffer}
use nestjs_homework.Users.Service
use nestjs_homework.Users.Service.{FindAllRequest}
use nestjs_homework.Users.Key.{IsPlain}
use nestjs_homework.Users.History.{
  CacheEvent, asks, changes, answers, answers_uncached, IsPlainRun, answers_lem,
}

abbrev account : ℕ → ℕ → Account
account id created = record {
  id = id;
  email = id;
  username = id;
  password = 0;
  is_verified = true;
  role = user;
  created_at = created;
  deleted_at = none;
}

abbrev users : UserDb
users = record {
  accounts = account 3 30 ∷ account 1 10 ∷ account 2 20 ∷ [];
  profiles =
      record { id = 8; first_name = 0; last_name = 0; age = 20; description = 0; account_id = 2 }
      ∷ [];
  avatars =
      record { id = 9; name = 5 ∷ []; profile_id = 8; created_at = 1; deleted_at = some 4 } ∷ [];
}

abbrev spell : Uuid → Text
spell x = x ∷ []

abbrev contains : Text → ℕ → Bool
contains t name = elem name t

spell_apart : (x y : Uuid) → spell x ≡ spell y → x ≡ y
spell_apart x y e = cc

spell_nonempty : (x : Uuid) → spell x ≢ []
spell_nonempty x e = cc

collect_all_example :
    (collect spell contains 4 none 2 none users ≡ some (matching spell contains none users))
    × IsInOrder (matching spell contains none users)
unfolding matching order_by_created insert_by_created
collect_all_example =
    collect_all spell contains spell_apart spell_nonempty 1 none users
      (((λ h. omega arith), ((λ h. omega arith), tt)), (((λ h. omega arith), tt), (tt, tt)))

-- A page of no rows has no last row to read the cursor of.
no_limit : find_all spell contains none 0 none users ≡ err type_error
unfolding find_all matching order_by_created insert_by_created
no_limit = refl

-- A search for `all` has the key of no search.
one_key :
    users_key (record { username = some (codes "all"); cursor = none; limit = 10 })
    ≡ users_key (record { username = none; cursor = none; limit = 10 })
unfolding users_key
one_key = refl

abbrev request : FindAllRequest
request = record { account_id = 1; cursor = none; limit = some 2; username = none }

abbrev first_key : Text
first_key = users_key (Service.query_of request)

-- The first request stores a page, a user leaves, the page is deleted, and the second request stores another.
abbrev events : List CacheEvent
events =
    asks request
    ∷ changes (record users { accounts = account 1 10 ∷ [] }) ((first_key ∷ []) ∷ [])
    ∷ asks request
    ∷ []

request-IsPlain : IsPlain (Service.query_of request)
request-IsPlain = record {
  name_plain = refl;
  name_given = λ h. cc;
  cursor_plain = refl;
  cursor_given = λ h. cc;
}

one_scanned :
    (key k : Text) (page : Page)
    → get_buffer key (record { key = k; data_ = page } ∷ []) ≢ none
    → (same_text key k || false) || false ≡ true
unfolding get_buffer
one_scanned key k page h = elim (Bool-cases (same_text k key)) [
  | inl same ↦ rw (same_text_eq k key same, same_text_refl key) refl
  | inr other ↦ absurd (h (rw other refl))
]

events-IsPlainRun : IsPlainRun spell contains events users []
unfolding Service.find_all Repository.find_by Account.find_by profile_of find_all page_of matching
    order_by_created insert_by_created user_row get_buffer set_buffers delete_key
events-IsPlainRun =
    (request-IsPlain, ((λ key u h. one_scanned key first_key _ h), (request-IsPlain, tt)))

answers_lem_example :
    answers spell contains events users [] ≡ answers_uncached spell contains events users
answers_lem_example = answers_lem spell contains events users events-IsPlainRun

abbrev avatar : ℕ → ℕ → Avatar
avatar id created = record {
  id = id;
  name = id ∷ [];
  profile_id = 8;
  created_at = created;
  deleted_at = none;
}

-- With three avatars the user is active, and the newest is named.
newest_named :
    map {A = ActiveUser}
      (λ u. u.last_loaded_avatar)
      (find_active 18 30 (record users { avatars = avatar 40 1 ∷ avatar 41 3 ∷ avatar 42 2 ∷ [] }))
    ≡ some (41 ∷ []) ∷ []
unfolding active_among newest
newest_named = refl

too_few : find_active 18 30 users ≡ []
unfolding active_among newest
too_few = refl
