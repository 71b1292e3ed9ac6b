-- ===== src/Files/Tests.antt =====
-- Uploads to a bucket.
use nestjs_homework.Base.{ℕ, zero, suc, true, none, some, [], ◌∷◌, ◌≡◌, refl}
use nestjs_homework.Base.Result.{ok, err}
use nestjs_homework.Base.Table.{create}
use nestjs_homework.Account
use nestjs_homework.Grpc.{unknown}
use nestjs_homework.Users.Repository.{find_by, profile_of}
use nestjs_homework.Profile.Avatars.{file_name, insert_avatar, create_avatar}
use nestjs_homework.Profile.Tests.{users, first_path}
use nestjs_homework.Files.{
  Delivery, delivered, reply_lost, service, UploadDraws, call_on, save_avatar_path, Bucket,
}
use nestjs_homework.Files.Upload.{UploadEnd, save_avatar_path_outcome}

abbrev draws : UploadDraws
draws = record { id = λ i. suc i; now = λ i. i }

abbrev all_delivered : ℕ → Delivery
all_delivered i = delivered

-- The answer to the first request is lost.
abbrev first_lost : ℕ → Delivery
first_lost zero = reply_lost
first_lost (suc i) = delivered

abbrev bucket : Bucket
bucket = first_path ∷ []

uploaded : save_avatar_path 3 2 all_delivered draws true 1 (some first_path) users bucket ≡ (
  ok (record { id = 1; name = 120 ∷ [] }),
  record users {
    avatars =
        record { id = 1; name = 120 ∷ []; profile_id = 8; created_at = 0; deleted_at = none } ∷ [];
  },
  bucket,
)
unfolding save_avatar_path call_on create_avatar find_by profile_of Account.find_by file_name
    insert_avatar create
uploaded = refl

-- The row stays and names an object that is gone.
row_without_object : save_avatar_path 3 2 first_lost draws true 1 (some first_path) users bucket ≡ (
  err (service unknown),
  record users {
    avatars =
        record { id = 1; name = 120 ∷ []; profile_id = 8; created_at = 0; deleted_at = none } ∷ [];
  },
  [],
)
unfolding save_avatar_path call_on create_avatar find_by profile_of Account.find_by file_name
    insert_avatar create
row_without_object = refl

save_avatar_path_outcome_example :
    UploadEnd true first_lost users bucket
      (some first_path)
      (save_avatar_path 3 2 first_lost draws true 1 (some first_path) users bucket)
save_avatar_path_outcome_example =
    save_avatar_path_outcome 3 2 first_lost draws true 1 (some first_path) users bucket
