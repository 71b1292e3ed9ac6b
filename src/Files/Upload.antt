-- ===== src/Files/Upload.antt =====
-- What an upload leaves behind.
use nestjs_homework.Base.{
  ℕ, zero, suc, Bool, true, false, ◌||◌, Option, none, some, [], ◌∷◌, ◌≡◌, refl, ap, any, arith,
  Text, same_text, same_text_eq, if◌then◌else◌, Bool-cases, inl, inr,
}
use nestjs_homework.Base.Result.{Result, ok, err}
use nestjs_homework.Contracts.{Uuid}
use nestjs_homework.Grpc.{GrpcStatus, Attempt, gives_up, no_retry, settle}
use nestjs_homework.Users.{UserDb, Avatar, AvatarView}
use nestjs_homework.Profile.{ProfileFault}
use nestjs_homework.Profile.Avatars.{file_name}
use nestjs_homework.Files.{
  status_of, Delivery, delivered, reply_lost, request_lost, call_on, served, FileFault,
  unprocessable, service, remove_failed, remove_file, Bucket, UploadDraws, cleaned, creating,
  save_answered, save_avatar_path,
}
use nestjs_homework.Files.Created.{
  view_of, with_row, has_name, Created, refused, added, create-Created, now_taken, Created-twice,
}

module _ (path : Text) (deliveries : ℕ → Delivery) where
  -- How the call of an upload ends: it is refused and nothing has changed; it is answered and the row is there; or the answer
  -- to the request that added the row was lost, and the call fails.
  pub data CallEnd (db : UserDb) : Result GrpcStatus AvatarView × UserDb → Type 0 where
    nothing : (e : GrpcStatus) → CallEnd db (err e, db)
    created :
        (v : Avatar) → file_name path ≡ some v.name → CallEnd db (ok (view_of v), with_row db v)
    lost :
        (i : ℕ) (v : Avatar) (e : GrpcStatus)
        → deliveries i ≡ reply_lost
        → file_name path ≡ some v.name
        → CallEnd db (err e, with_row db v)

  abbrev settled : Attempt AvatarView × UserDb → Result GrpcStatus AvatarView × UserDb
  settled step = (settle step.0, step.1)

  last_end :
      (i : ℕ) (d : Delivery) (db : UserDb) {r : Result ProfileFault AvatarView × UserDb}
      → deliveries i ≡ d
      → Created path db r
      → CallEnd db (settled (served deliveries (λ j s. r) d r db))
  last_end i delivered db at (refused e) = nothing _
  last_end i delivered db at (added v named free) = created v named
  last_end i reply_lost db at (refused e) = nothing _
  last_end i reply_lost db at (added v named free) = lost i v _ at named
  last_end i request_lost db at c = nothing _

  settled_refused :
      (d : Delivery) (e : ProfileFault) (db : UserDb)
      → (f : GrpcStatus) × (settled (served deliveries (λ j s. (err e, s)) d (err e, db) db)
          ≡ (err f, db))
  settled_refused delivered e db = (_, refl)
  settled_refused reply_lost e db = (_, refl)
  settled_refused request_lost e db = (_, refl)

  -- A step of the call, with what is tried after it.
  abbrev proceed :
      Attempt AvatarView × UserDb
      → (UserDb → Result GrpcStatus AvatarView × UserDb)
      → Result GrpcStatus AvatarView × UserDb
  proceed step rest = let after = rest step.1 in if gives_up step.0 then settled step else after

  stuck_step :
      (d : Delivery) (e : ProfileFault) (db : UserDb)
      (rest : UserDb → Result GrpcStatus AvatarView × UserDb)
      → (f : GrpcStatus) × (rest db ≡ (err f, db))
      → (f : GrpcStatus) × (proceed (served deliveries (λ j s. (err e, s)) d (err e, db) db) rest
          ≡ (err f, db))
  stuck_step delivered e db rest k = elim (Bool-cases (no_retry (status_of e))) [
    | inl final ↦ (status_of e, rw final refl)
    | inr again ↦ (k.0, rw again k.1)
  ]
  stuck_step reply_lost e db rest k = k
  stuck_step request_lost e db rest k = k

  end_step :
      (i : ℕ) (d : Delivery) (db : UserDb) {r : Result ProfileFault AvatarView × UserDb}
      → deliveries i ≡ d
      → Created path db r
      → (rest : UserDb → Result GrpcStatus AvatarView × UserDb) → CallEnd db (rest db)
      → ((v : Avatar)
          → file_name path ≡ some v.name
          → (e : GrpcStatus) × (rest (with_row db v) ≡ (err e, with_row db v)))
      → CallEnd db (proceed (served deliveries (λ j s. r) d r db) rest)
  end_step i delivered db at (refused e) rest later k = elim (Bool-cases (no_retry (status_of e))) [
    | inl final ↦ rw final (nothing (status_of e))
    | inr again ↦ rw again later
  ]
  end_step i delivered db at (added v named free) rest later k = created v named
  end_step i reply_lost db at (refused e) rest later k = later
  end_step i reply_lost db at (added v named free) rest later k =
      let (e, same) = k v named in rw same (lost i v e at named)
  end_step i request_lost db at c rest later k = later

  module _ (handler : ℕ → UserDb → Result ProfileFault AvatarView × UserDb)
      (creates : (i : ℕ) (db : UserDb) → Created path db (handler i db)) where
    -- With the name taken no request changes anything.
    stuck :
        (retries i : ℕ) (db : UserDb) (name : Text)
        → file_name path ≡ some name
        → has_name name db ≡ true
        → (e : GrpcStatus) × (call_on deliveries handler retries i db ≡ (err e, db))
    unfolding call_on
    stuck zero i db name named taken =
        let (e, same) = Created-twice path name db (creates i db) named taken in
        rw (call_on, same) (settled_refused (deliveries i) e db)
    stuck (suc retries) i db name named taken =
        let (e, same) = Created-twice path name db (creates i db) named taken in
        rw (call_on, same)
          (stuck_step (deliveries i) e db (call_on deliveries handler retries (suc i))
            (stuck retries (suc i) db name named taken))

    call_end : (retries i : ℕ) (db : UserDb) → CallEnd db (call_on deliveries handler retries i db)
    unfolding call_on
    call_end zero i db = last_end i (deliveries i) db refl (creates i db)
    call_end (suc retries) i db =
        end_step i (deliveries i) db refl (creates i db)
          (call_on deliveries handler retries (suc i)) (call_end retries (suc i) db)
          (λ v named. stuck retries (suc i) (with_row db v) v.name named (now_taken v db.avatars))

-- Some object of the bucket has the path.
abbrev pub is_stored : Text → Bucket → Bool
is_stored path bucket = any (λ p. same_text p path) bucket

-- The second bucket has no object of the path; any other object is there if it was there before.
pub record Lacks (path : Text) (bucket bucket' : Bucket) : Type 0 where
  pub gone : is_stored path bucket' ≡ false
  pub others : (q : Text) → same_text path q ≡ false → is_stored q bucket' ≡ is_stored q bucket

is_stored-remove_file :
    (path : Text) (bucket : Bucket) → is_stored path (remove_file path bucket) ≡ false
is_stored-remove_file path [] = refl
is_stored-remove_file path (p ∷ ps) = ground (arith, is_stored-remove_file path ps)

keeps_others :
    (path q : Text) (bucket : Bucket)
    → same_text path q ≡ false
    → is_stored q (remove_file path bucket) ≡ is_stored q bucket
keeps_others path q [] h = refl
keeps_others path q (p ∷ ps) h = elim (Bool-cases (same_text p path)) [
  | inl hit ↦
      let other : same_text p q ≡ false = rw (same_text_eq p path hit) h in
      rw (hit, other) (keeps_others path q ps h)
  | inr miss ↦ rw miss (ap (λ b. same_text p q || b) (keeps_others path q ps h))
]

-- How an upload fails with the rows `db`: the object is removed and the error of the call is thrown on, or
-- the bucket does not remove it and that is the error.
pub data FailedEnd (path : Text) (e : GrpcStatus) (db : UserDb) (bucket : Bucket)
    : Bool → Result FileFault AvatarView × UserDb × Bucket → Type 0 where
  removed :
      (bucket' : Bucket)
      → Lacks path bucket bucket'
      → FailedEnd path e db bucket true (err (service e), db, bucket')
  not_removed : FailedEnd path e db bucket false (err remove_failed, db, bucket)

cleaned-FailedEnd :
    (path : Text) (e : GrpcStatus) (db : UserDb) (bucket : Bucket) (removes : Bool)
    → FailedEnd path e db bucket removes (cleaned removes path e db bucket)
cleaned-FailedEnd path e db bucket true = removed (remove_file path bucket) (record {
  gone = is_stored-remove_file path bucket;
  others = λ q h. keeps_others path q bucket h;
})
cleaned-FailedEnd path e db bucket false = not_removed

-- What an upload leaves behind: it is answered, and the new row names the object, which stays; it fails and
-- no row was added; or the answer to the request that added the row was lost, and then the upload fails in the
-- same way and the row stays. With no file nothing changes.
pub data UploadEnd (removes : Bool) (deliveries : ℕ → Delivery) (db : UserDb) (bucket : Bucket)
    : Option Text → Result FileFault AvatarView × UserDb × Bucket → Type 0 where
  no_file : UploadEnd removes deliveries db bucket none (err unprocessable, db, bucket)
  kept :
      (path : Text) (v : Avatar)
      → file_name path ≡ some v.name
      → UploadEnd removes deliveries db bucket (some path) (ok (view_of v), with_row db v, bucket)
  undone :
      (path : Text) (e : GrpcStatus) {out : Result FileFault AvatarView × UserDb × Bucket}
      → FailedEnd path e db bucket removes out
      → UploadEnd removes deliveries db bucket (some path) out
  dangling :
      (path : Text) (i : ℕ) (v : Avatar) (e : GrpcStatus)
      {out : Result FileFault AvatarView × UserDb × Bucket}
      → deliveries i ≡ reply_lost
      → file_name path ≡ some v.name
      → FailedEnd path e (with_row db v) bucket removes out
      → UploadEnd removes deliveries db bucket (some path) out

upload_end :
    (path : Text) (removes : Bool) (deliveries : ℕ → Delivery) (db : UserDb) (bucket : Bucket)
    {r : Result GrpcStatus AvatarView × UserDb} (max_avatars retries : ℕ)
    → CallEnd path deliveries db r
    → UploadEnd removes deliveries db bucket
        (some path)
        (save_answered max_avatars retries deliveries removes path r bucket)
upload_end path removes deliveries db bucket max_avatars retries (nothing e) =
    undone path e (cleaned-FailedEnd path e db bucket removes)
upload_end path removes deliveries db bucket max_avatars retries (created v named) =
    kept path v named
upload_end path removes deliveries db bucket max_avatars retries (lost i v e at named) =
    dangling path i v e at named (cleaned-FailedEnd path e (with_row db v) bucket removes)

-- However its requests fare, an upload ends in one of these ways: it is answered, and the row that it added names the
-- object, which stays in the bucket; it fails, no row was added, and the object is gone and every other one kept, unless
-- the bucket refuses to remove it; or an answer was lost after the row was added, and the upload fails in the
-- same way while the row stays. No way adds two rows. Without a file it is refused and nothing changes.
pub save_avatar_path_outcome :
    (max_avatars retries : ℕ) (deliveries : ℕ → Delivery) (draws : UploadDraws) (removes : Bool)
    (account : Uuid) (avatar : Option Text) (db : UserDb) (bucket : Bucket)
    → UploadEnd removes deliveries db bucket avatar
        (save_avatar_path max_avatars retries deliveries draws removes account avatar db bucket)
unfolding save_avatar_path
save_avatar_path_outcome max_avatars retries deliveries draws removes account none db bucket =
    no_file
save_avatar_path_outcome max_avatars retries deliveries draws removes account (some path) db
      bucket =
    upload_end path removes deliveries db bucket max_avatars retries (
      call_end path deliveries (creating max_avatars retries deliveries draws account path)
        (λ i s. create-Created max_avatars (draws.id i) (draws.now i) account path s) retries 0 db)
