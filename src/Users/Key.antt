-- ===== src/Users/Key.antt =====
-- When a key of the cache tells which query it belongs to.
use nestjs_homework.Base.{
  codes, decimal, read_digits, read_digits-decimal, ℕ, false, Option, none, some, [], ◌∷◌, ◌++◌,
  ◌≡◌, ◌≢◌, refl, sym, ap, ◌∙◌, arith, elem, Text,
}
use nestjs_homework.Users.Cache.{or_else, Query, users_key}

-- A text up to its first colon.
first_part :
    (a b x y : Text)
    → elem 58 a ≡ false
    → elem 58 b ≡ false
    → a ++ 58 ∷ x ≡ b ++ 58 ∷ y
    → (a ≡ b) × (x ≡ y)
first_part [] [] x y ha hb e = (refl, cc)
first_part [] (c ∷ b) x y ha hb e = absurd (ground arith)
first_part (c ∷ a) [] x y ha hb e = absurd (ground arith)
first_part (c ∷ a) (d ∷ b) x y ha hb e = ground (arith, first_part a b x y)

-- Neither text has a colon, the user name is not `all`, and the cursor is not `start`.
pub record IsPlain (q : Query) : Type 0 where
  pub name_plain : elem 58 (or_else q.username []) ≡ false
  pub name_given : q.username ≢ some (codes "all")
  pub cursor_plain : elem 58 (or_else q.cursor []) ≡ false
  pub cursor_given : q.cursor ≢ some (codes "start")

or_else_inj :
    (a b : Option Text) (d : Text) → a ≢ some d → b ≢ some d → or_else a d ≡ or_else b d → a ≡ b
or_else_inj none none d ha hb e = refl
or_else_inj none (some y) d ha hb e = absurd (hb (ap some (sym e)))
or_else_inj (some x) none d ha hb e = absurd (ha (ap some e))
or_else_inj (some x) (some y) d ha hb e = ap some e

no_colon :
    (o : Option Text) (d : Text)
    → elem 58 (or_else o []) ≡ false
    → elem 58 d ≡ false
    → elem 58 (or_else o d) ≡ false
no_colon none d h k = k
no_colon (some x) d h k = h

append_cancel : (p x y : Text) → p ++ x ≡ p ++ y → x ≡ y
append_cancel [] x y e = e
append_cancel (c ∷ p) x y e = append_cancel p x y cc

decimal_inj : (m n : ℕ) → decimal m ≡ decimal n → m ≡ n
decimal_inj m n e = sym (read_digits-decimal m) ∙ ap (read_digits 0) e ∙ read_digits-decimal n

Query_eq : (q r : Query) → q.username ≡ r.username → q.cursor ≡ r.cursor → q.limit ≡ r.limit → q ≡ r
Query_eq q r u c l = cc

-- Two plain queries with one key are one query.
pub users_key_inj : (q r : Query) → IsPlain q → IsPlain r → users_key q ≡ users_key r → q ≡ r
unfolding users_key
users_key_inj q r pq pr e =
    let named =
      first_part _ _ _ _ (no_colon q.username (codes "all") pq.name_plain refl)
        (no_colon r.username (codes "all") pr.name_plain refl)
        (append_cancel (codes "cache:users:") _ _ e) in
    let placed =
      first_part _ _ _ _ (no_colon q.cursor (codes "start") pq.cursor_plain refl)
        (no_colon r.cursor (codes "start") pr.cursor_plain refl)
        (append_cancel (codes "cursor=") _ _ named.1) in
    Query_eq q r
      (or_else_inj q.username r.username (codes "all") pq.name_given pr.name_given named.0)
      (or_else_inj q.cursor r.cursor (codes "start") pq.cursor_given pr.cursor_given placed.0)
      (decimal_inj q.limit r.limit (append_cancel (codes "limit=") _ _ placed.1))
