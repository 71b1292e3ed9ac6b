-- ===== src/Files/Created.antt =====
-- What one request of an upload does to the rows.
use nestjs_homework.Base.{
  ℕ, Bool, true, false, none, some, List, [], ◌∷◌, ◌++◌, ◌≡◌, refl, arith, any, Text, leb, length,
  ap, Option-cases, Bool-cases, inl, inr, same_text, same_text_refl, length,
}
use nestjs_homework.Base.Result.{Result, ok, err}
use nestjs_homework.Base.Table.{create}
use nestjs_homework.Grpc.{not_found, invalid_argument}
use nestjs_homework.Users.{UserDb, Avatar, AvatarView}
use nestjs_homework.Users.Repository.{find_by}
use nestjs_homework.Profile.{ProfileFault, rpc, database}
use nestjs_homework.Profile.Avatars.{
  same_avatar, insert_avatar, file_name, profile_in, create_avatar,
}

abbrev pub view_of : Avatar → AvatarView
view_of v = record { id = v.id; name = v.name }

abbrev pub with_row : UserDb → Avatar → UserDb
with_row db v = record db { avatars = db.avatars ++ v ∷ [] }

-- A row has the name.
abbrev pub has_name : Text → UserDb → Bool
has_name name db = any (λ v. same_text v.name name) db.avatars

-- What a request does: nothing, or it adds a row under a name that no row has.
pub data Created (path : Text) (db : UserDb)
    : Result ProfileFault AvatarView × UserDb → Type 0 where
  refused : (e : ProfileFault) → Created path db (err e, db)
  added :
      (v : Avatar)
      → file_name path ≡ some v.name
      → has_name v.name db ≡ false
      → Created path db (ok (view_of v), with_row db v)

free_name :
    (v : Avatar) (rows : List Avatar)
    → any (same_avatar v) rows ≡ false
    → any (λ w. same_text w.name v.name) rows ≡ false
free_name v [] h = refl
free_name v (w ∷ rows) h = ground (arith, free_name v rows)

insert-Created :
    (path : Text) (v : Avatar) (db : UserDb)
    → file_name path ≡ some v.name
    → Created path db (insert_avatar v db)
unfolding insert_avatar create
insert-Created path v db named = elim (Bool-cases (any (same_avatar v) db.avatars)) [
  | inl taken ↦ rw (insert_avatar, create, taken) (refused database)
  | inr free ↦ rw (insert_avatar, create, free) (added v named (free_name v db.avatars free))
]

pub create-Created :
    (max_avatars : ℕ) (id now account : ℕ) (path : Text) (db : UserDb)
    → Created path db (create_avatar max_avatars id now account path db)
unfolding create_avatar
create-Created max_avatars id now account path db =
    elim (Option-cases (profile_in (find_by (some account) none none db))) [
      | inl e ↦ rw (create_avatar, e) (refused (rpc not_found))
      | inr (p, e) ↦ elim (Bool-cases (leb max_avatars (length p.avatars))) [
        | inl full ↦ rw (create_avatar, e, full) (refused (rpc invalid_argument))
        | inr room ↦ elim (Option-cases (file_name path)) [
          | inl unnamed ↦ rw (create_avatar, e, room, unnamed) (refused database)
          | inr (name, named) ↦ rw (create_avatar, e, room, named) (insert-Created path _ db named)
        ]
      ]
    ]

pub now_taken :
    (v : Avatar) (rows : List Avatar) → any (λ w. same_text w.name v.name) (rows ++ v ∷ []) ≡ true
now_taken v [] = rw (same_text_refl v.name) refl
now_taken v (w ∷ rows) = ground (arith, now_taken v rows)

-- Once the name is taken a request is refused.
pub Created-twice :
    (path name : Text) (db : UserDb) {r : Result ProfileFault AvatarView × UserDb}
    → Created path db r
    → file_name path ≡ some name
    → has_name name db ≡ true
    → (e : ProfileFault) × (r ≡ (err e, db))
Created-twice path name db (refused e) named taken = (e, refl)
Created-twice path name db (added v named' free) named taken =
    let same : v.name ≡ name = cc in absurd (ground (arith, ap (λ n. has_name n db) same))
