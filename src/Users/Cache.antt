-- ===== src/Users/Cache.antt =====
-- apps/user-service/src/core/cache/cache.service.ts: the pages of users that Redis keeps. An entry is a key with
-- what `unpack` gives of its value; an entry that expires is a step of its own.
use nestjs_homework.Base.{
  ℕ, Option, none, some, List, [], ◌∷◌, ◌++◌, Text, codes, decimal, same_text, if◌then◌else◌,
}
use nestjs_homework.Users.Repository.{Page}

-- `x ?? y`
abbrev pub or_else : Option Text → Text → Text
or_else none y = y
or_else (some x) y = x

-- The arguments that a key is made of.
pub record Query : Type 0 where
  pub username : Option Text
  pub cursor : Option Text
  pub limit : ℕ

-- The key of `usersKeyOptions`.
unfoldable pub users_key : Query → Text
users_key q =
    codes "cache:users:"
    ++ (or_else q.username (codes "all")
        ++ (codes ":cursor="
            ++ (or_else q.cursor (codes "start") ++ (codes ":limit=" ++ decimal q.limit))))

pub record CacheEntry : Type 0 where
  pub key : Text
  pub data_ : Page

unfoldable pub get_buffer : Text → List CacheEntry → Option Page
get_buffer key [] = none
get_buffer key (e ∷ es) = if same_text e.key key then some e.data_ else get_buffer key es

-- `del`
unfoldable pub delete_key : Text → List CacheEntry → List CacheEntry
delete_key key [] = []
delete_key key (e ∷ es) =
    let rest = delete_key key es in if same_text e.key key then rest else e ∷ rest

unfoldable pub set_buffers : Text → Page → List CacheEntry → List CacheEntry
unfolding delete_key
set_buffers key page es = record { key = key; data_ = page } ∷ delete_key key es

unfoldable pub delete_keys : List Text → List CacheEntry → List CacheEntry
unfolding delete_key
delete_keys [] es = es
delete_keys (k ∷ ks) es = delete_keys ks (delete_key k es)

-- `invalidateByPattern`, with the keys that each call of `SCAN` returns up to the one whose cursor is 0.
unfoldable pub invalidate_by_pattern : List (List Text) → List CacheEntry → List CacheEntry
unfolding delete_keys
invalidate_by_pattern [] es = es
invalidate_by_pattern (keys ∷ batches) es = invalidate_by_pattern batches (delete_keys keys es)
