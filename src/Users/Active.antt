-- ===== src/Users/Active.antt =====
-- `findActive` of apps/user-service/src/core/repositories/users.repository.ts and of the service over it. The query asks for no
-- order of its rows; here they come in the order of the profiles. Of avatars of one moment the first is taken.
use nestjs_homework.Base.{
  ℕ, Bool, true, Option, none, some, List, [], ◌∷◌, ◌≡◌, ◌≤◌, ◌<◌, ◌==◌, ◌&&◌, refl, ap, arith,
  find, filter, length, ltb, leb, any, All, Text, Option-cases, Bool-cases, inl, inr, if◌then◌else◌,
}
use mathlib.Core.Option
use nestjs_homework.Base.Result.{Result, ok, err}
use nestjs_homework.Contracts.{Uuid, Time}
use nestjs_homework.Grpc.{unauthenticated}
use nestjs_homework.Account.{Account}
use nestjs_homework.Users.{UserDb, Profile, Avatar}
use nestjs_homework.Users.Repository.{is_active, find_by}
use nestjs_homework.Users.Service.{ServiceFault, rpc, is_gone}

pub record ActiveUser : Type 0 where
  pub account_id : Uuid
  pub username : ℕ
  pub email : ℕ
  pub created_at : Time
  pub profile_id : Uuid
  pub first_name : ℕ
  pub last_name : ℕ
  pub age : ℕ
  pub description : ℕ
  pub last_loaded_avatar : Option Text

-- `JOIN avatars … WHERE deleted_at IS NULL`
abbrev pub active_avatars : Uuid → UserDb → List Avatar
active_avatars profile db = filter (λ v. v.profile_id == profile && is_active v) db.avatars

-- `ROW_NUMBER() OVER (… ORDER BY created_at DESC)` is 1.
unfoldable pub newest : List Avatar → Option Avatar
newest [] = none
newest (v ∷ vs) = elim (newest vs) [
  | none ↦ some v
  | some w ↦ if ltb v.created_at w.created_at then some w else some v
]

-- The conditions of `WHERE` and `HAVING`; a description is never null.
abbrev pub is_wanted : ℕ → ℕ → UserDb → Profile → Bool
is_wanted min_age max_age db p =
    leb min_age p.age && leb p.age max_age && ltb 2 (length (active_avatars p.id db))

abbrev pub active_user : UserDb → Profile → Account → ActiveUser
active_user db p a = record {
  account_id = a.id;
  username = a.username;
  email = a.email;
  created_at = a.created_at;
  profile_id = p.id;
  first_name = p.first_name;
  last_name = p.last_name;
  age = p.age;
  description = p.description;
  last_loaded_avatar = Option.map (λ v. v.name) (newest (active_avatars p.id db));
}

unfoldable pub active_among : ℕ → ℕ → UserDb → List Profile → List ActiveUser
active_among min_age max_age db [] = []
active_among min_age max_age db (p ∷ profiles) =
    let rest = active_among min_age max_age db profiles in
    elim (find (λ a. a.id == p.account_id) db.accounts) [
      | none ↦ rest
      | some a ↦ if is_wanted min_age max_age db p then active_user db p a ∷ rest else rest
    ]

abbrev pub find_active : ℕ → ℕ → UserDb → List ActiveUser
find_active min_age max_age db = active_among min_age max_age db db.profiles

-- The service.
unfoldable pub find_active_users : Uuid → ℕ → ℕ → UserDb → Result ServiceFault (List ActiveUser)
find_active_users account min_age max_age db =
    if is_gone (find_by (some account) none none db)
    then err (rpc unauthenticated)
    else ok (find_active min_age max_age db)

newest-none : (P : Avatar → Type 0) (vs : List Avatar) → newest vs ≡ none → All P vs
unfolding newest
newest-none P [] h = tt
newest-none P (w ∷ vs) h = elim (Option-cases (newest vs)) [
  | inl e ↦ absurd (ground arith)
  | inr (x, e) ↦ absurd (ground arith)
]

All-older :
    (m n : Time) (vs : List Avatar)
    → m ≤ n
    → All (λ w. w.created_at ≤ m) vs
    → All (λ w. w.created_at ≤ n) vs
All-older m n [] le h = tt
All-older m n (w ∷ vs) le h = (omega (arith, h.0), All-older m n vs le h.1)

-- The newest of some avatars is one of them, and none of them is newer.
newest_latest :
    (vs : List Avatar) (v : Avatar)
    → newest vs ≡ some v
    → (any (λ w. w.id == v.id) vs ≡ true) × All (λ w. w.created_at ≤ v.created_at) vs
unfolding newest
newest_latest [] v h = cc
newest_latest (w ∷ vs) v h = elim (Option-cases (newest vs)) [
  | inl e ↦
      let same : w ≡ v = ground arith in
      let times = ap (λ z. z.created_at) same in
      let ids = ap (λ z. z.id) same in
      (
        ground (arith, ids),
        (omega (arith, times), newest-none (λ z. z.created_at ≤ v.created_at) vs e),
      )
  | inr (x, e) ↦
      let (among, latest) = newest_latest vs x e in
      elim (Bool-cases (ltb w.created_at x.created_at)) [
        | inl older ↦
            let same : x ≡ v = ground arith in
            let times = ap (λ z. z.created_at) same in
            let ids = ap (λ z. z.id) same in
            (
              ground (arith, among, ids),
              (
                ground (arith, times),
                All-older x.created_at v.created_at vs (omega (arith, times)) latest,
              ),
            )
        | inr newer ↦
            let same : w ≡ v = ground arith in
            let times = ap (λ z. z.created_at) same in
            let ids = ap (λ z. z.id) same in
            (
              ground (arith, ids),
              (
                omega (arith, times),
                All-older x.created_at v.created_at vs (ground (arith, times)) latest,
              ),
            )
      ]
]

no_avatars : (vs : List Avatar) → newest vs ≡ none → length vs ≡ 0
unfolding newest
no_avatars [] h = refl
no_avatars (w ∷ vs) h = elim (Option-cases (newest vs)) [
  | inl e ↦ absurd (ground arith)
  | inr (x, e) ↦ absurd (ground arith)
]

-- A row of an answer: the age lies in the range, there are more than two avatars that are not deleted, and the one that is named is
-- one of them, and none of them is newer.
pub record IsAnswer (min_age max_age : ℕ) (db : UserDb) (u : ActiveUser) : Type 0 where
  pub old_enough : min_age ≤ u.age
  pub young_enough : u.age ≤ max_age
  pub many : 2 < length (active_avatars u.profile_id db)
  pub loaded : Avatar
  pub named : u.last_loaded_avatar ≡ some loaded.name
  pub among : any (λ w. w.id == loaded.id) (active_avatars u.profile_id db) ≡ true
  pub latest : All (λ w. w.created_at ≤ loaded.created_at) (active_avatars u.profile_id db)

user-IsAnswer :
    (min_age max_age : ℕ) (db : UserDb) (p : Profile) (a : Account)
    → is_wanted min_age max_age db p ≡ true
    → IsAnswer min_age max_age db (active_user db p a)
user-IsAnswer min_age max_age db p a h = elim (Option-cases (newest (active_avatars p.id db))) [
  | inl e ↦ absurd (ground (arith, no_avatars (active_avatars p.id db) e))
  | inr (v, e) ↦
      let (among, latest) = newest_latest (active_avatars p.id db) v e in
      record {
        old_enough = ground arith;
        young_enough = ground arith;
        many = ground arith;
        loaded = v;
        named = ap (Option.map (λ w. w.name)) e;
        among = among;
        latest = latest;
      }
]

pub active_among-All :
    (min_age max_age : ℕ) (db : UserDb) (profiles : List Profile)
    → All (IsAnswer min_age max_age db) (active_among min_age max_age db profiles)
unfolding active_among
active_among-All min_age max_age db [] = tt
active_among-All min_age max_age db (p ∷ profiles) =
    let rest = active_among-All min_age max_age db profiles in
    elim (Option-cases (find (λ a. a.id == p.account_id) db.accounts)) [
      | inl e ↦ rw (active_among, e) rest
      | inr (a, e) ↦ elim (Bool-cases (is_wanted min_age max_age db p)) [
        | inl w ↦ rw (active_among, e, w) (user-IsAnswer min_age max_age db p a w, rest)
        | inr w ↦ rw (active_among, e, w) rest
      ]
    ]
