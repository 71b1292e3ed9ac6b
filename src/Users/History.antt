-- ===== src/Users/History.antt =====
-- The service over time: requests, expiring entries, and writes with the invalidation that each of them emits.
use nestjs_homework.Base.{
  ℕ, Bool, true, none, List, [], ◌∷◌, ◌≡◌, ◌≢◌, refl, arith, Text, Option-cases, inl, inr,
}
use nestjs_homework.Base.Result.{Result}
use nestjs_homework.Contracts.{Uuid}
use nestjs_homework.Users.{UserDb}
use nestjs_homework.Users.Repository.{Page}
use nestjs_homework.Users.Cache.{
  CacheEntry, Query, users_key, get_buffer, delete_key, invalidate_by_pattern,
}
use nestjs_homework.Users.Key.{IsPlain}
use nestjs_homework.Users.Service.{
  ServiceFault, FindAllRequest, query_of, find_all, find_all_uncached,
}
use nestjs_homework.Users.Coherent.{
  IsCoherent, find_all-IsCoherent, is_users_key, scanned, invalidated, invalidated_gone,
  get_buffer-delete_key,
}

-- A write leaves new tables; the batches are what `SCAN` returns to its invalidation.
pub data CacheEvent : Type 0 where
  asks : FindAllRequest → CacheEvent
  expires : Text → CacheEvent
  changes : UserDb → List (List Text) → CacheEvent

-- `SCAN` returns every key that is in the cache from its start to its end.
abbrev pub ScansAll : List (List Text) → List CacheEntry → Type 0
ScansAll batches cache =
    (key : Text)
    → is_users_key key ≡ true
    → get_buffer key cache ≢ none
    → scanned key batches ≡ true

module _ (spell : Uuid → Text) (contains : Text → ℕ → Bool) where
  -- The answers to the requests of a run.
  pub answers : List CacheEvent → UserDb → List CacheEntry → List (Result ServiceFault Page)
  answers [] db cache = []
  answers (asks r ∷ es) db cache =
      let (reply, cache') = find_all spell contains r db cache in reply ∷ answers es db cache'
  answers (expires key ∷ es) db cache = answers es db (delete_key key cache)
  answers (changes db' batches ∷ es) db cache = answers es db' (invalidate_by_pattern batches cache)

  -- The answers of a service without a cache.
  pub answers_uncached : List CacheEvent → UserDb → List (Result ServiceFault Page)
  answers_uncached [] db = []
  answers_uncached (asks r ∷ es) db = find_all_uncached spell contains r db ∷ answers_uncached es db
  answers_uncached (expires key ∷ es) db = answers_uncached es db
  answers_uncached (changes db' batches ∷ es) db = answers_uncached es db'

  -- Every query is plain, and every `SCAN` is complete.
  abbrev pub IsPlainRun : List CacheEvent → UserDb → List CacheEntry → Type 0
  IsPlainRun [] db cache = Unit
  IsPlainRun (asks r ∷ es) db cache =
      IsPlain (query_of r) × IsPlainRun es db (find_all spell contains r db cache).1
  IsPlainRun (expires key ∷ es) db cache = IsPlainRun es db (delete_key key cache)
  IsPlainRun (changes db' batches ∷ es) db cache =
      ScansAll batches cache × IsPlainRun es db' (invalidate_by_pattern batches cache)

  expired-IsCoherent :
      (key : Text) (db : UserDb) (cache : List CacheEntry)
      → IsCoherent spell contains db cache
      → IsCoherent spell contains db (delete_key key cache)
  expired-IsCoherent key db cache good q page plain found =
      good q page plain (ground (arith, get_buffer-delete_key (users_key q) key cache))

  users_key-is_users_key : (q : Query) → is_users_key (users_key q) ≡ true
  unfolding users_key
  users_key-is_users_key q = refl

  -- After an invalidation no page of users is left, whatever the tables are now.
  invalidated-IsCoherent :
      (batches : List (List Text)) (db : UserDb) (cache : List CacheEntry)
      → ScansAll batches cache
      → IsCoherent spell contains db (invalidate_by_pattern batches cache)
  invalidated-IsCoherent batches db cache all q page plain found =
      let key = users_key q in
      elim (Option-cases (get_buffer key cache)) [
        | inl absent ↦ absurd (ground (arith, invalidated_gone key batches cache absent))
        | inr (p, present) ↦
            let listed = all key (users_key-is_users_key q) (λ h. cc) in
            absurd (ground (arith, invalidated key batches cache listed))
      ]

  from_coherent :
      (es : List CacheEvent) (db : UserDb) (cache : List CacheEntry)
      → IsPlainRun es db cache
      → IsCoherent spell contains db cache
      → answers es db cache ≡ answers_uncached es db
  unfolding answers answers_uncached
  from_coherent [] db cache plain good = refl
  from_coherent (asks r ∷ es) db cache plain good =
      let (same, good') = find_all-IsCoherent spell contains r db cache plain.0 good in
      let rest = from_coherent es db (find_all spell contains r db cache).1 plain.1 good' in cc
  from_coherent (expires key ∷ es) db cache plain good =
      from_coherent es db (delete_key key cache) plain (expired-IsCoherent key db cache good)
  from_coherent (changes db' batches ∷ es) db cache plain good =
      from_coherent es db' (invalidate_by_pattern batches cache) plain.1
        (invalidated-IsCoherent batches db' cache plain.0)

  -- A service that starts with an empty cache answers every request of a run as a service without a cache would,
  -- where the queries are plain, and each write is followed by its complete invalidation before the next request.
  pub answers_lem :
      (es : List CacheEvent) (db : UserDb)
      → IsPlainRun es db []
      → answers es db [] ≡ answers_uncached es db
  unfolding get_buffer
  answers_lem es db plain = from_coherent es db [] plain (λ q page p found. cc)
