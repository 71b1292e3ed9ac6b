-- ===== src/Users/Cursor.antt =====
-- The rows before and after a cursor.
use nestjs_homework.Base.{
  ℕ, zero, suc, Bool, true, some, List, [], ◌∷◌, ◌≡◌, ◌≢◌, ◌<◌, refl, arith, length, take, drop,
  last, All, All-take, Text, same_text, same_text_refl, same_text_eq, Bool-cases, inl, inr,
}
use nestjs_homework.Base.Slices.{last-All}
use nestjs_homework.Contracts.{Uuid}
use nestjs_homework.Users.{UserRow}
use nestjs_homework.Users.Repository.{from_cursor}

-- No two rows have one id.
abbrev pub DistinctRows : List UserRow → Type 0
DistinctRows [] = Unit
DistinctRows (u ∷ us) = All (λ x. u.id ≢ x.id) us × DistinctRows us

module _ (spell : Uuid → Text) (contains : Text → ℕ → Bool)
    (apart : (x y : Uuid) → spell x ≡ spell y → x ≡ y) where
  -- The rows after the cursor of the last row of a page are those after the page.
  pub after_last :
      (n : ℕ) (us : List UserRow) (u : UserRow)
      → DistinctRows us
      → n < length us
      → last (take (suc n) us) ≡ some u
      → drop 1 (from_cursor spell contains (spell u.id) us) ≡ drop (suc n) us
  unfolding from_cursor
  after_last n [] u d h e = absurd (omega arith)
  after_last zero (x ∷ us) u d h e =
      let same : x ≡ u = ground arith in
      let here : same_text (spell x.id) (spell u.id) ≡ true =
        rw same (same_text_refl (spell u.id)) in
      rw (from_cursor, here) refl
  after_last (suc n) (x ∷ []) u d h e = absurd (omega arith)
  after_last (suc n) (x ∷ y ∷ us) u d h e =
      let other =
        last-All (λ z. x.id ≢ z.id) (take (suc n) (y ∷ us)) u
          (All-take (λ z. x.id ≢ z.id) (suc n) (y ∷ us) d.0) e in
      elim (Bool-cases (same_text (spell x.id) (spell u.id))) [
        | inl same ↦ absurd (other (apart x.id u.id (same_text_eq (spell x.id) (spell u.id) same)))
        | inr differs ↦ rw (from_cursor, differs) (after_last n (y ∷ us) u d.1 (omega arith) e)
      ]
