-- ===== src/Profile/Limit.antt =====
-- No profile gets more avatars than the setting allows.
use nestjs_homework.Base.{
  ℕ, suc, Bool, Option, none, some, List, [], ◌∷◌, ◌++◌, ◌+◌, ◌≤◌, ◌≡◌, ◌==◌, ◌&&◌, refl, ap, subst,
  arith, map, find, filter, length, leb, Text, if◌then◌else◌, Option-cases, Bool-cases, inl, inr,
}
use nestjs_homework.Base.Table.{create, update_first}
use nestjs_homework.Contracts.{Uuid, Time}
use nestjs_homework.Account
use nestjs_homework.Users.{UserDb, Avatar, ProfileView, Profile}
use nestjs_homework.Users.Repository.{is_active, find_by, profile_of, profile_view}
use nestjs_homework.Profile.{
  ProfilePatch, create_profile, update_profile, insert_profile, patch_profile,
}
use nestjs_homework.Profile.Avatars.{
  with_deleted, is_own_avatar, delete_row, insert_avatar, saved, profile_in, create_avatar,
  delete_avatar, file_name,
}

-- How many avatars of a profile are not deleted.
abbrev pub active_count : Uuid → List Avatar → ℕ
active_count profile avatars = length (filter (λ v. v.profile_id == profile && is_active v) avatars)

length-map : {A B : Type 0} (f : A → B) (xs : List A) → length (map f xs) ≡ length xs
length-map f [] = refl
length-map f (x ∷ xs) = ap suc (length-map f xs)

active_count-append :
    (profile : Uuid) (avatars : List Avatar) (v : Avatar)
    → active_count profile (avatars ++ v ∷ [])
      ≤ active_count profile avatars + (if v.profile_id == profile then 1 else 0)
active_count-append profile [] v = ground arith
active_count-append profile (w ∷ avatars) v = ground (arith, active_count-append profile avatars v)

active_count-delete :
    (profile : Uuid) (p : Avatar → Bool) (now : Time) (avatars : List Avatar)
    → active_count profile (update_first p (with_deleted now) avatars)
      ≤ active_count profile avatars
unfolding update_first
active_count-delete profile p now [] = omega arith
active_count-delete profile p now (w ∷ avatars) =
    ground (arith, active_count-delete profile p now avatars)

-- The profile that a call reads lists the avatars that are not deleted.
listed :
    (account : Uuid) (db : UserDb) (p : ProfileView)
    → profile_in (find_by (some account) none none db) ≡ some p
    → length p.avatars ≡ active_count p.id db.avatars
unfolding find_by profile_of
listed account db p h = elim (Option-cases (Account.find_by (some account) none none db.accounts)) [
  | inl e ↦ absurd (ground arith)
  | inr (a, e) ↦ elim (Option-cases (find (λ q. q.account_id == a.id) db.profiles)) [
    | inl absent ↦ absurd (ground arith)
    | inr (q, present) ↦
        let same : profile_view is_active db q ≡ p = ground arith in
        subst (λ x. length x.avatars ≡ active_count x.id db.avatars) same
          (length-map _ (filter (λ v. v.profile_id == q.id && is_active v) db.avatars))
  ]
]

module _ (max_avatars : ℕ) where
  -- No profile has more active avatars than `maxAvatars`.
  abbrev pub IsBounded : UserDb → Type 0
  IsBounded db = (profile : Uuid) → active_count profile db.avatars ≤ max_avatars

  saved-IsBounded :
      (id : Uuid) (now : Time) (p : ProfileView) (name : Option Text) (db : UserDb)
      → IsBounded db
      → suc (active_count p.id db.avatars) ≤ max_avatars
      → IsBounded (saved id now p name db).1
  unfolding insert_avatar create
  saved-IsBounded id now p none db h room profile = h profile
  saved-IsBounded id now p (some name) db h room profile =
      let v : Avatar = record {
        id = id;
        name = name;
        profile_id = p.id;
        created_at = now;
        deleted_at = none;
      } in
      ground (arith, h profile, active_count-append profile db.avatars v)

  create_avatar-IsBounded :
      (id : Uuid) (now : Time) (account : Uuid) (path : Text) (db : UserDb)
      → IsBounded db
      → IsBounded (create_avatar max_avatars id now account path db).1
  unfolding create_avatar
  create_avatar-IsBounded id now account path db h =
      elim (Option-cases (profile_in (find_by (some account) none none db))) [
        | inl e ↦ rw (create_avatar, e) h
        | inr (p, e) ↦ elim (Bool-cases (leb max_avatars (length p.avatars))) [
          | inl full ↦ rw (create_avatar, e, full) h
          | inr room ↦
              rw (create_avatar, e, room)
                (saved-IsBounded id now p (file_name path) db h
                  (ground (arith, listed account db p e)))
        ]
      ]

  delete_avatar-IsBounded :
      (account : Uuid) (name : Text) (now : Time) (db : UserDb)
      → IsBounded db
      → IsBounded (delete_avatar account name now db).1
  unfolding delete_avatar delete_row
  delete_avatar-IsBounded account name now db h profile =
      ground (
        arith,
        h profile,
        active_count-delete profile (is_own_avatar account name db) now db.avatars,
      )

  -- The calls of the two services.
  pub data ProfileCall : Type 0 where
    creates_profile : Profile → ProfileCall
    updates_profile : Uuid → ProfilePatch → ProfileCall
    creates_avatar : Uuid → Time → Uuid → Text → ProfileCall
    deletes_avatar : Uuid → Text → Time → ProfileCall

  pub perform : ProfileCall → UserDb → UserDb
  perform (creates_profile p) db = (create_profile p db).1
  perform (updates_profile account c) db = (update_profile account c db).1
  perform (creates_avatar id now account path) db =
      (create_avatar max_avatars id now account path db).1
  perform (deletes_avatar account name now) db = (delete_avatar account name now db).1

  pub perform_all : List ProfileCall → UserDb → UserDb
  perform_all [] db = db
  perform_all (c ∷ cs) db = perform_all cs (perform c db)

  profile-IsBounded : (c : ProfileCall) (db : UserDb) → IsBounded db → IsBounded (perform c db)
  unfolding perform create_profile update_profile insert_profile patch_profile
  profile-IsBounded (creates_profile p) db h = λ profile. ground (arith, h profile)
  profile-IsBounded (updates_profile account c) db h = λ profile. ground (arith, h profile)
  profile-IsBounded (creates_avatar id now account path) db h =
      create_avatar-IsBounded id now account path db h
  profile-IsBounded (deletes_avatar account name now) db h =
      delete_avatar-IsBounded account name now db h

  -- Whatever sequence of calls of the two services is made, one after the other, no profile has more avatars that are not deleted than
  -- the setting allows, if that held at the start.
  pub perform_all-IsBounded :
      (cs : List ProfileCall) (db : UserDb) → IsBounded db → IsBounded (perform_all cs db)
  unfolding perform_all
  perform_all-IsBounded [] db h = h
  perform_all-IsBounded (c ∷ cs) db h =
      perform_all-IsBounded cs (perform c db) (profile-IsBounded c db h)
