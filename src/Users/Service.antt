-- ===== src/Users/Service.antt =====
-- apps/user-service/src/feat/users/users.service.ts
use nestjs_homework.Base.{ℕ, Bool, Option, none, some, List, is_some, if◌then◌else◌, Text}
use nestjs_homework.Base.Result.{Result, ok, err}
use nestjs_homework.Contracts.{Uuid}
use nestjs_homework.Grpc.{GrpcStatus, unauthenticated, not_found}
use nestjs_homework.Users.{UserDb, User}
use nestjs_homework.Users.Repository
use nestjs_homework.Users.Repository.{Page, UsersFault, type_error}
use nestjs_homework.Users.Cache.{CacheEntry, Query, users_key, get_buffer, set_buffers}

-- An `RpcException`, or an error of the code itself.
pub data ServiceFault : Type 0 where
  rpc : GrpcStatus → ServiceFault
  thrown : UsersFault → ServiceFault

-- `!user || user.deletedAt`
abbrev pub is_gone : Option User → Bool
is_gone none = Bool.true
is_gone (some u) = is_some u.deleted_at

unfoldable pub find_me : Uuid → UserDb → Result ServiceFault User
find_me account_id db = elim (Repository.find_by (some account_id) none none db) [
  | none ↦ err (rpc not_found)
  | some u ↦ if is_some u.deleted_at then err (rpc not_found) else ok u
]

pub record FindAllRequest : Type 0 where
  pub account_id : Uuid
  pub cursor : Option Text
  pub limit : Option ℕ
  pub username : Option Text

-- `limit = 10`
abbrev pub query_of : FindAllRequest → Query
query_of r = record {
  username = r.username;
  cursor = r.cursor;
  limit = elim r.limit [ none ↦ 10 | some n ↦ n ];
}

module _ (spell : Uuid → Text) (contains : Text → ℕ → Bool) where
  abbrev pub lookup_page : Query → UserDb → Result UsersFault Page
  lookup_page q db = Repository.find_all spell contains q.cursor q.limit q.username db

  -- On a miss the page is stored.
  abbrev pub cached_page :
      Text → Result UsersFault Page → List CacheEntry → Result ServiceFault Page × List CacheEntry
  cached_page key (err e) cache = (err (thrown e), cache)
  cached_page key (ok page) cache = (ok page, set_buffers key page cache)

  unfoldable pub find_all :
      FindAllRequest → UserDb → List CacheEntry → Result ServiceFault Page × List CacheEntry
  find_all r db cache =
      if is_gone (Repository.find_by (some r.account_id) none none db)
      then (err (rpc unauthenticated), cache)
      else elim (get_buffer (users_key (query_of r)) cache) [
        | some page ↦ (ok page, cache)
        | none ↦ cached_page (users_key (query_of r)) (lookup_page (query_of r) db) cache
      ]

  abbrev as_answer : Result UsersFault Page → Result ServiceFault Page
  as_answer (ok page) = ok page
  as_answer (err e) = err (thrown e)

  -- What a service without a cache answers.
  abbrev pub find_all_uncached : FindAllRequest → UserDb → Result ServiceFault Page
  find_all_uncached r db =
      if is_gone (Repository.find_by (some r.account_id) none none db)
      then err (rpc unauthenticated)
      else as_answer (lookup_page (query_of r) db)
