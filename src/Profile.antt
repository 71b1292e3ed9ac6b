-- ===== src/Profile.antt =====
-- Profiles and avatars of user-service: apps/user-service/src/core/repositories/profile.repository.ts and
-- avatar.repository.ts, and the services over them. The signal that clears the cache of users is left out.
pub mod Avatars
pub mod Limit
pub mod Tests
use nestjs_homework.Base.{
  ℕ, Bool, true, false, Option, none, some, List, [], ◌∷◌, ◌++◌, ◌==◌, ◌||◌, find, is_some,
  if◌then◌else◌,
}
use nestjs_homework.Base.Result.{Result, ok, err}
use nestjs_homework.Base.Table.{create, update_first}
use nestjs_homework.Contracts.{Uuid}
use nestjs_homework.Grpc.{GrpcStatus, not_found, already_exists}
use nestjs_homework.Users.{UserDb, User, Profile}
use nestjs_homework.Users.Repository.{find_by}

-- An `RpcException`, or an error of the database.
pub data ProfileFault : Type 0 where
  rpc : GrpcStatus → ProfileFault
  database : ProfileFault

-- `_findAndCheckUser`
unfoldable pub find_and_check_user : Uuid → UserDb → Result ProfileFault User
find_and_check_user id db = elim (find_by (some id) none none db) [
  | none ↦ err (rpc not_found)
  | some u ↦ if is_some u.deleted_at then err (rpc not_found) else ok u
]

-- `id` and `accountId` are unique.
abbrev pub same_profile : Profile → Profile → Bool
same_profile p q = q.id == p.id || q.account_id == p.account_id

-- `ProfileRepository.create`
unfoldable pub insert_profile : Profile → UserDb → Result ProfileFault Profile × UserDb
insert_profile p db = elim (create same_profile p db.profiles) [
  | none ↦ (err database, db)
  | some rows ↦ (ok p, record db { profiles = rows })
]

-- A field that is `undefined` stays as it is.
pub record ProfilePatch : Type 0 where
  pub first_name : Option ℕ
  pub last_name : Option ℕ
  pub age : Option ℕ
  pub description : Option ℕ

abbrev pub or_old : Option ℕ → ℕ → ℕ
or_old none y = y
or_old (some x) y = x

abbrev pub patched : ProfilePatch → Profile → Profile
patched c p = record p {
  first_name = or_old c.first_name p.first_name;
  last_name = or_old c.last_name p.last_name;
  age = or_old c.age p.age;
  description = or_old c.description p.description;
}

abbrev pub is_owned_by : Uuid → Profile → Bool
is_owned_by account p = p.account_id == account

-- `ProfileRepository.update`
unfoldable pub patch_profile : Uuid → ProfilePatch → UserDb → Result ProfileFault Profile × UserDb
patch_profile account c db = elim (find (is_owned_by account) db.profiles) [
  | none ↦ (err database, db)
  | some p ↦ (
    ok (patched c p),
    record db { profiles = update_first (is_owned_by account) (patched c) db.profiles },
  )
]

-- `createProfile`, with the id that `uuidv7()` draws; `accountId` is a field of the new row.
unfoldable pub create_profile : Profile → UserDb → Result ProfileFault Profile × UserDb
create_profile p db = elim (find_and_check_user p.account_id db) [
  | err e ↦ (err e, db)
  | ok u ↦ if is_some u.profile then (err (rpc already_exists), db) else insert_profile p db
]

unfoldable pub update_profile : Uuid → ProfilePatch → UserDb → Result ProfileFault Profile × UserDb
update_profile account c db = elim (find_and_check_user account db) [
  | err e ↦ (err e, db)
  | ok u ↦ if is_some u.profile then patch_profile account c db else (err (rpc not_found), db)
]
