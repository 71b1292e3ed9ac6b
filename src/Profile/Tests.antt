-- ===== src/Profile/Tests.antt =====
-- A profile and its avatars.
use nestjs_homework.Base.{true, none, some, List, [], ◌∷◌, ◌≡◌, ◌≤◌, refl, arith, Text}
use nestjs_homework.Base.Result.{ok, err}
use nestjs_homework.Base.Table.{create, update_first}
use nestjs_homework.Contracts.{user}
use nestjs_homework.Account
use nestjs_homework.Account.{Account}
use nestjs_homework.Grpc.{invalid_argument}
use nestjs_homework.Users.{UserDb, Profile}
use nestjs_homework.Users.Repository.{find_by, profile_of}
use nestjs_homework.Profile.{rpc, find_and_check_user, patch_profile, update_profile}
use nestjs_homework.Profile.Avatars.{
  file_name, insert_avatar, delete_row, create_avatar, delete_avatar,
}
use nestjs_homework.Profile.Limit.{
  active_count, ProfileCall, creates_profile, creates_avatar, deletes_avatar, perform_all,
  perform_all-IsBounded,
}

abbrev owner : Account
owner = record {
  id = 1;
  email = 1;
  username = 1;
  password = 0;
  is_verified = true;
  role = user;
  created_at = 1;
  deleted_at = none;
}

abbrev profile : Profile
profile = record {
  id = 8;
  first_name = 0;
  last_name = 0;
  age = 20;
  description = 0;
  account_id = 1;
}

abbrev pub empty : UserDb
empty = record { accounts = owner ∷ []; profiles = []; avatars = [] }

abbrev pub users : UserDb
users = record empty { profiles = profile ∷ [] }

-- `a/x` and `a/y`
abbrev pub first_path : Text
first_path = 97 ∷ 47 ∷ 120 ∷ []

abbrev second_path : Text
second_path = 97 ∷ 47 ∷ 121 ∷ []

abbrev with_one : UserDb
with_one = (create_avatar 1 30 5 1 first_path users).1

-- The second avatar is one too many, until the first is deleted.
too_many : (create_avatar 1 31 6 1 second_path with_one).0 ≡ err (rpc invalid_argument)
unfolding create_avatar find_by profile_of Account.find_by file_name insert_avatar create
too_many = refl

after_delete :
    (create_avatar 1 31 7 1 second_path (delete_avatar 1 (120 ∷ []) 6 with_one).1).0
    ≡ ok (record { id = 31; name = 121 ∷ [] })
unfolding create_avatar delete_avatar delete_row find_by profile_of Account.find_by file_name
    insert_avatar create update_first
after_delete = refl

age_patched :
    (update_profile 1
      (record { first_name = none; last_name = none; age = some 33; description = none })
      users).0
    ≡ ok (record profile { age = 33 })
unfolding update_profile patch_profile find_and_check_user find_by profile_of Account.find_by
age_patched = refl

abbrev calls : List (ProfileCall 1)
calls =
    creates_profile profile
    ∷ creates_avatar 30 5 1 first_path
    ∷ creates_avatar 31 6 1 second_path
    ∷ deletes_avatar 1 (120 ∷ []) 7
    ∷ []

perform_all-IsBounded_example : active_count 8 (perform_all 1 calls empty).avatars ≤ 1
perform_all-IsBounded_example = perform_all-IsBounded 1 calls empty (λ p. omega arith) 8
