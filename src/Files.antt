-- ===== src/Files.antt =====
-- apps/file-service/src/file.service.ts: the avatars' objects in the bucket and their rows in user-service, which it changes by
-- the gRPC client of libs/grpc/client/abstracts/grpc-client.abstract.ts. The storage engine has put the uploaded object in
-- the bucket before. How each request fares, and whether the bucket removes an object, are arguments.
mod Created
pub mod Upload
mod Tests
use nestjs_homework.Base.{
  ℕ, zero, suc, Bool, true, false, not, Option, none, some, List, [], ◌∷◌, ◌++◌, filter, Text,
  same_text, if◌then◌else◌,
}
use nestjs_homework.Base.Result.{Result, ok, err}
use nestjs_homework.Contracts.{Uuid, Time}
use nestjs_homework.Grpc.{
  GrpcStatus, unknown, Attempt, answered, timed_out, failed, gives_up, settle,
}
use nestjs_homework.Users.{UserDb, AvatarView}
use nestjs_homework.Profile.{ProfileFault, rpc, database}
use nestjs_homework.Profile.Avatars.{create_avatar, delete_avatar}

-- A request is served and answered, it is served and the answer comes too late, or it is not served.
pub data Delivery : Type 0 where
  delivered reply_lost request_lost : Delivery

-- The status of an exception that is not an `RpcException` is `UNKNOWN`.
abbrev pub status_of : ProfileFault → GrpcStatus
status_of (rpc code) = code
status_of database = unknown

abbrev pub as_attempt : {A : Type 0} → Result ProfileFault A → Attempt A
as_attempt (ok a) = answered a
as_attempt (err e) = failed (status_of e)

module _ {A : Type 0} (deliveries : ℕ → Delivery)
    (handler : ℕ → UserDb → Result ProfileFault A × UserDb) where
  abbrev pub served : Delivery → Result ProfileFault A × UserDb → UserDb → Attempt A × UserDb
  served delivered answer db = (as_attempt answer.0, answer.1)
  served reply_lost answer db = (timed_out, answer.1)
  served request_lost answer db = (timed_out, db)

  -- `call` on a server with a state, from attempt `i` on with so many retries left.
  unfoldable pub call_on : ℕ → ℕ → UserDb → Result GrpcStatus A × UserDb
  call_on zero i db = let step = served (deliveries i) (handler i db) db in (settle step.0, step.1)
  call_on (suc retries) i db =
      let step = served (deliveries i) (handler i db) db in
      let rest = call_on retries (suc i) step.1 in
      if gives_up step.0 then (settle step.0, step.1) else rest

-- An `UnprocessableEntityException`, the error of the client, or a `RemoveFileException`.
pub data FileFault : Type 0 where
  unprocessable : FileFault
  service : GrpcStatus → FileFault
  remove_failed : FileFault

-- The bucket, as the paths of its objects.
abbrev pub Bucket : Type 0
Bucket = List Text

-- `removeFile`
abbrev pub remove_file : Text → Bucket → Bucket
remove_file path bucket = filter (λ p. not (same_text p path)) bucket

-- The draws of each attempt: `uuidv7()` and the clock.
pub record UploadDraws : Type 0 where
  pub id : ℕ → Uuid
  pub now : ℕ → Time

-- The `catch` of `saveAvatarPath`.
abbrev pub cleaned :
    {A : Type 0} → Bool → Text → GrpcStatus → UserDb → Bucket → Result FileFault A × UserDb × Bucket
cleaned true path e db bucket = (err (service e), db, remove_file path bucket)
cleaned false path e db bucket = (err remove_failed, db, bucket)

module _ (max_avatars retries : ℕ) (deliveries : ℕ → Delivery) where
  abbrev pub creating :
      UploadDraws → Uuid → Text → ℕ → UserDb → Result ProfileFault AvatarView × UserDb
  creating draws account path i db =
      create_avatar max_avatars (draws.id i) (draws.now i) account path db

  abbrev pub save_answered :
      Bool
      → Text
      → Result GrpcStatus AvatarView × UserDb
      → Bucket
      → Result FileFault AvatarView × UserDb × Bucket
  save_answered removes path (ok v, db) bucket = (ok v, db, bucket)
  save_answered removes path (err e, db) bucket = cleaned removes path e db bucket

  unfoldable pub save_avatar_path :
      UploadDraws
      → Bool
      → Uuid
      → Option Text
      → UserDb
      → Bucket
      → Result FileFault AvatarView × UserDb × Bucket
  save_avatar_path draws removes account none db bucket = (err unprocessable, db, bucket)
  save_avatar_path draws removes account (some path) db bucket =
      save_answered removes path (call_on deliveries (creating draws account path) retries 0 db)
        bucket

  abbrev pub delete_answered :
      Result GrpcStatus (Unit {0}) × UserDb → Bucket → Result FileFault (Unit {0}) × UserDb × Bucket
  delete_answered (ok u, db) bucket = (ok u, db, bucket)
  delete_answered (err e, db) bucket = (err (service e), db, bucket)

  -- The object stays in the bucket.
  unfoldable pub delete_avatar_path :
      (ℕ → Time) → Uuid → Text → UserDb → Bucket → Result FileFault (Unit {0}) × UserDb × Bucket
  delete_avatar_path now account [] db bucket = (err unprocessable, db, bucket)
  delete_avatar_path now account (c ∷ cs) db bucket =
      delete_answered
        (call_on deliveries (λ i. delete_avatar account (c ∷ cs) (now i)) retries 0 db) bucket
