-- ===== src/Profile/Avatars.antt =====
-- apps/user-service/src/feat/avatar/avatar.service.ts over apps/user-service/src/core/repositories/avatar.repository.ts.
-- The configured number of avatars is a parameter.
use nestjs_homework.Base.{
  ℕ, Bool, Option, none, some, [], ◌∷◌, ◌==◌, ◌||◌, ◌&&◌, find, any, length, leb, is_some, Text,
  same_text, if◌then◌else◌,
}
use nestjs_homework.Base.Result.{Result, ok, err}
use nestjs_homework.Base.Table.{create, update_first}
use nestjs_homework.Contracts.{Uuid, Time}
use nestjs_homework.Grpc.{not_found, invalid_argument, unauthenticated}
use nestjs_homework.Users.{UserDb, User, Avatar, AvatarView, ProfileView}
use nestjs_homework.Users.Repository.{find_by}
use nestjs_homework.Profile.{ProfileFault, rpc, database}

-- `id` and `name` are unique.
abbrev pub same_avatar : Avatar → Avatar → Bool
same_avatar v w = w.id == v.id || same_text w.name v.name

-- `AvatarRepository.create`
unfoldable pub insert_avatar : Avatar → UserDb → Result ProfileFault AvatarView × UserDb
insert_avatar v db = elim (create same_avatar v db.avatars) [
  | none ↦ (err database, db)
  | some rows ↦ (ok (record { id = v.id; name = v.name }), record db { avatars = rows })
]

-- `{ profile: { accountId }, name }`
abbrev pub is_own_avatar : Uuid → Text → UserDb → Avatar → Bool
is_own_avatar account name db v =
    same_text v.name name && any (λ p. p.id == v.profile_id && p.account_id == account) db.profiles

abbrev pub with_deleted : Time → Avatar → Avatar
with_deleted now v = record v { deleted_at = some now }

-- `AvatarRepository.update` with `deletedAt`.
unfoldable pub delete_row : Uuid → Text → Time → UserDb → Result ProfileFault Avatar × UserDb
delete_row account name now db = elim (find (is_own_avatar account name db) db.avatars) [
  | none ↦ (err database, db)
  | some v ↦ (
    ok (with_deleted now v),
    record db {
      avatars = update_first (is_own_avatar account name db) (with_deleted now) db.avatars;
    },
  )
]

-- The text up to the first `/`, and what is after it.
abbrev pub before_slash : Text → Text
before_slash [] = []
before_slash (c ∷ cs) = let rest = before_slash cs in if c == 47 then [] else c ∷ rest

abbrev pub after_slash : Text → Option Text
after_slash [] = none
after_slash (c ∷ cs) = let rest = after_slash cs in if c == 47 then some cs else rest

-- `path.split('/')[1]`
unfoldable pub file_name : Text → Option Text
file_name path = elim (after_slash path) [ none ↦ none | some rest ↦ some (before_slash rest) ]

-- `!user || user.deletedAt || !user.profile`
abbrev pub profile_in : Option User → Option ProfileView
profile_in none = none
profile_in (some u) = if is_some u.deleted_at then none else u.profile

-- Without a name `create` throws.
abbrev pub saved :
    Uuid → Time → ProfileView → Option Text → UserDb → Result ProfileFault AvatarView × UserDb
saved id now p none db = (err database, db)
saved id now p (some name) db =
    insert_avatar
      (record { id = id; name = name; profile_id = p.id; created_at = now; deleted_at = none }) db

unfoldable pub create_avatar :
    ℕ → Uuid → Time → Uuid → Text → UserDb → Result ProfileFault AvatarView × UserDb
create_avatar max_avatars id now account path db =
    elim (profile_in (find_by (some account) none none db)) [
      | none ↦ (err (rpc not_found), db)
      | some p ↦
          if leb max_avatars (length p.avatars)
          then (err (rpc invalid_argument), db)
          else saved id now p (file_name path) db
    ]

-- Any error of the update is `UNAUTHENTICATED`.
abbrev pub deleted : Result ProfileFault Avatar × UserDb → Result ProfileFault (Unit {0}) × UserDb
deleted (ok v, db) = (ok tt, db)
deleted (err e, db) = (err (rpc unauthenticated), db)

unfoldable pub delete_avatar : Uuid → Text → Time → UserDb → Result ProfileFault (Unit {0}) × UserDb
delete_avatar account name now db = elim (profile_in (find_by (some account) none none db)) [
  | none ↦ (err (rpc not_found), db)
  | some p ↦ deleted (delete_row account name now db)
]
