-- ===== src/Users/Coherent.antt =====
-- What the cache answers is what the tables hold.
use nestjs_homework.Base.{
  codes, starts_with, ℕ, Bool, true, none, some, List, [], ◌∷◌, ◌≡◌, refl, sym, ap, subst, ◌∙◌,
  arith, any, Text, same_text, same_text_eq, same_text_refl, if◌then◌else◌, Bool-cases,
  Option-cases, inl, inr,
}
use nestjs_homework.Base.Result.{ok, Result-cases}
use nestjs_homework.Contracts.{Uuid}
use nestjs_homework.Users.{UserDb}
use nestjs_homework.Users.Repository
use nestjs_homework.Users.Repository.{Page}
use nestjs_homework.Users.Cache.{
  CacheEntry, Query, users_key, get_buffer, delete_key, set_buffers, delete_keys,
  invalidate_by_pattern,
}
use nestjs_homework.Users.Key.{IsPlain, users_key_inj}
use nestjs_homework.Users.Service.{
  FindAllRequest, query_of, is_gone, lookup_page, find_all, find_all_uncached,
}

same_text_trans :
    (x y z : Text) → same_text x y ≡ true → same_text z y ≡ true → same_text x z ≡ true
same_text_trans x y z p q =
    let same : x ≡ z = same_text_eq x y p ∙ sym (same_text_eq z y q) in
    subst (λ t. same_text x t ≡ true) same (same_text_refl x)

pub get_buffer-delete_key :
    (key k : Text) (es : List CacheEntry)
    → get_buffer key (delete_key k es) ≡ (if same_text k key then none else get_buffer key es)
unfolding get_buffer delete_key
get_buffer-delete_key key k [] = ground arith
get_buffer-delete_key key k (e ∷ es) =
    let rest = get_buffer-delete_key key k es in
    elim (Bool-cases (same_text e.key k)) [
      | inl same ↦ ground (arith, rest, ap (λ t. same_text t key) (same_text_eq e.key k same))
      | inr other ↦ ground (arith, rest, same_text_trans e.key key k)
    ]

get_buffer-set_buffers :
    (key k : Text) (page : Page) (es : List CacheEntry)
    → get_buffer key (set_buffers k page es)
      ≡ (if same_text k key then some page else get_buffer key es)
unfolding get_buffer set_buffers
get_buffer-set_buffers key k page es = ground (arith, get_buffer-delete_key key k es)

-- The keys of the queries of users.
abbrev pub is_users_key : Text → Bool
is_users_key = starts_with (codes "cache:users:")

delete_keys_gone :
    (key : Text) (ks : List Text) (es : List CacheEntry)
    → get_buffer key es ≡ none
    → get_buffer key (delete_keys ks es) ≡ none
unfolding delete_keys
delete_keys_gone key [] es h = h
delete_keys_gone key (k ∷ ks) es h =
    delete_keys_gone key ks (delete_key k es) (ground (arith, get_buffer-delete_key key k es))

delete_keys_listed :
    (key : Text) (ks : List Text) (es : List CacheEntry)
    → any (same_text key) ks ≡ true
    → get_buffer key (delete_keys ks es) ≡ none
unfolding delete_keys
delete_keys_listed key [] es h = cc
delete_keys_listed key (k ∷ ks) es h = elim (Bool-cases (same_text key k)) [
  | inl same ↦
      let same' : same_text k key ≡ true = rw (same_text_eq key k same) (same_text_refl k) in
      delete_keys_gone key ks (delete_key k es) (get_buffer-delete_key key k es ∙ rw same' refl)
  | inr other ↦ delete_keys_listed key ks (delete_key k es) (ground arith)
]

module _ (key : Text) where
  -- A call of `SCAN` returned the key.
  abbrev pub scanned : List (List Text) → Bool
  scanned = any (λ ks. any (same_text key) ks)

  pub invalidated_gone :
      (batches : List (List Text)) (es : List CacheEntry)
      → get_buffer key es ≡ none
      → get_buffer key (invalidate_by_pattern batches es) ≡ none
  unfolding invalidate_by_pattern
  invalidated_gone [] es h = h
  invalidated_gone (ks ∷ batches) es h =
      invalidated_gone batches (delete_keys ks es) (delete_keys_gone key ks es h)

  pub invalidated :
      (batches : List (List Text)) (es : List CacheEntry)
      → scanned batches ≡ true
      → get_buffer key (invalidate_by_pattern batches es) ≡ none
  unfolding invalidate_by_pattern
  invalidated [] es h = cc
  invalidated (ks ∷ batches) es h = elim (Bool-cases (any (same_text key) ks)) [
    | inl here ↦ invalidated_gone batches (delete_keys ks es) (delete_keys_listed key ks es here)
    | inr later ↦ invalidated batches (delete_keys ks es) (ground arith)
  ]

module _ (spell : Uuid → Text) (contains : Text → ℕ → Bool) where
  -- Each page in the cache under the key of a plain query is what the tables give.
  abbrev pub IsCoherent : UserDb → List CacheEntry → Type 0
  IsCoherent db cache =
      (q : Query) (page : Page)
      → IsPlain q
      → get_buffer (users_key q) cache ≡ some page
      → lookup_page spell contains q db ≡ ok page

  set-IsCoherent :
      (q : Query) (page : Page) (db : UserDb) (cache : List CacheEntry)
      → IsPlain q
      → lookup_page spell contains q db ≡ ok page
      → IsCoherent db cache
      → IsCoherent db (set_buffers (users_key q) page cache)
  set-IsCoherent q page db cache plain h good r page' plain' found =
      let is : (if same_text (users_key q) (users_key r)
            then some page
            else get_buffer (users_key r) cache)
          ≡ some page' =
        sym (get_buffer-set_buffers (users_key r) (users_key q) page cache) ∙ found in
      elim (Bool-cases (same_text (users_key q) (users_key r))) [
        | inl same ↦
            let query =
              users_key_inj q r plain plain' (same_text_eq (users_key q) (users_key r) same) in
            let equal : page ≡ page' = ground arith in
            subst (λ p. lookup_page spell contains r db ≡ ok p) equal
              (subst (λ x. lookup_page spell contains x db ≡ ok page) query h)
        | inr other ↦ good r page' plain' (ground arith)
      ]

  -- The service with its cache answers what it would answer without, and leaves the cache coherent.
  pub find_all-IsCoherent :
      (r : FindAllRequest) (db : UserDb) (cache : List CacheEntry)
      → IsPlain (query_of r)
      → IsCoherent db cache
      → ((find_all spell contains r db cache).0 ≡ find_all_uncached spell contains r db)
        × IsCoherent db (find_all spell contains r db cache).1
  unfolding find_all
  find_all-IsCoherent r db cache plain good =
      elim (Bool-cases (is_gone (Repository.find_by (some r.account_id) none none db))) [
        | inl gone ↦ rw gone (refl, good)
        | inr here ↦ elim (Option-cases (get_buffer (users_key (query_of r)) cache)) [
          | inr (page, hit) ↦
              let same = good (query_of r) page plain hit in rw (here, hit, same) (refl, good)
          | inl miss ↦ elim (Result-cases (lookup_page spell contains (query_of r) db)) [
            | inl (page, e) ↦
                rw (here, miss, e) (refl, set-IsCoherent (query_of r) page db cache plain e good)
            | inr (x, e) ↦ rw (here, miss, e) (refl, good)
          ]
        ]
      ]
