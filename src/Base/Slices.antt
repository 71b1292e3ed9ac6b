-- ===== src/Base/Slices.antt =====
-- How the parts of a list that `take`, `drop`, `pop` and `last` give fit together.
use Prim.Native.Nat.{ℕ, zero, suc, ◌+◌, ◌≤◌, ◌<◌}
use mathlib.Core.Path.{◌≡◌, refl, sym, ap, ◌∙◌, subst}
use mathlib.Core.Option.{some}
use mathlib.Core.List.{List, [], ◌∷◌, ◌++◌}
use native.Mathlib.Omega.{arith}
use nestjs_homework.Base.Lists.{length, take, drop, pop, last, All}

module _ {A : Type 0} where
  pub pop-take : (n : ℕ) (xs : List A) → n < length xs → pop (take (suc n) xs) ≡ take n xs
  pop-take n [] h = absurd (omega arith)
  pop-take zero (x ∷ xs) h = refl
  pop-take (suc n) (x ∷ []) h = absurd (omega arith)
  pop-take (suc n) (x ∷ y ∷ xs) h = ap (λ t. x ∷ t) (pop-take n (y ∷ xs) (omega arith))

  pub length-take_all : (n : ℕ) (xs : List A) → n ≤ length xs → length (take n xs) ≡ n
  length-take_all zero xs h = refl
  length-take_all (suc n) [] h = absurd (omega arith)
  length-take_all (suc n) (x ∷ xs) h = ap suc (length-take_all n xs (omega arith))

  pub take_all : (n : ℕ) (xs : List A) → length xs ≤ n → take n xs ≡ xs
  take_all zero [] h = refl
  take_all zero (x ∷ xs) h = absurd (omega arith)
  take_all (suc n) [] h = refl
  take_all (suc n) (x ∷ xs) h = ap (λ t. x ∷ t) (take_all n xs (omega arith))

  pub take-drop : (n : ℕ) (xs : List A) → take n xs ++ drop n xs ≡ xs
  take-drop zero xs = refl
  take-drop (suc n) [] = refl
  take-drop (suc n) (x ∷ xs) = ap (λ t. x ∷ t) (take-drop n xs)

  pub length-drop : (n : ℕ) (xs : List A) → n ≤ length xs → length (drop n xs) + n ≡ length xs
  length-drop zero xs h = omega arith
  length-drop (suc n) [] h = absurd (omega arith)
  length-drop (suc n) (x ∷ xs) h = omega (arith, length-drop n xs)

  pub lt_of_drop : (n k : ℕ) (xs : List A) → n < length (drop k xs) → k + n < length xs
  lt_of_drop n zero xs h = omega arith
  lt_of_drop n (suc k) [] h = absurd (omega arith)
  lt_of_drop n (suc k) (x ∷ xs) h = omega (arith, lt_of_drop n k xs h)

  drop-nil : (k : ℕ) → Path (List A) (drop k []) []
  drop-nil zero = refl
  drop-nil (suc k) = refl

  pub drop-drop : (n k : ℕ) (xs : List A) → drop n (drop k xs) ≡ drop (k + n) xs
  drop-drop n zero xs = ap (λ m. drop m xs) (omega arith)
  drop-drop n (suc k) [] = drop-nil n ∙ sym (drop-nil (suc k + n))
  drop-drop n (suc k) (x ∷ xs) =
      let e : suc (k + n) ≡ suc k + n = omega arith in
      drop-drop n k xs ∙ ap (λ m. drop m (x ∷ xs)) e

  pub last-take :
      (n : ℕ) (xs : List A) → n < length xs → (x : A) × (last (take (suc n) xs) ≡ some x)
  last-take n [] h = absurd (omega arith)
  last-take zero (x ∷ xs) h = (x, refl)
  last-take (suc n) (x ∷ []) h = absurd (omega arith)
  last-take (suc n) (x ∷ y ∷ xs) h = last-take n (y ∷ xs) (omega arith)

  pub drop_lt :
      (n k : ℕ) (xs : List A)
      → n < length (drop k xs)
      → length (drop (k + suc n) xs) < length (drop k xs)
  drop_lt n k xs h =
      omega
        (arith, length-drop (suc n) (drop k xs) (omega arith), ap length (drop-drop (suc n) k xs))

  -- The last row of a page, counted from the start.
  pub last-take-drop :
      (n k : ℕ) (xs : List A)
      → n < length (drop k xs)
      → last (take (suc n) (drop k xs)) ≡ last (take (suc (k + n)) xs)
  last-take-drop n zero xs h = ap (λ m. last (take (suc m) xs)) (omega arith)
  last-take-drop n (suc k) [] h = absurd (omega arith)
  last-take-drop n (suc k) (x ∷ []) h = absurd (omega (arith, ap length (drop-nil k)))
  last-take-drop n (suc k) (x ∷ y ∷ xs) h =
      let e : suc (suc (k + n)) ≡ suc (suc k + n) = omega arith in
      last-take-drop n k (y ∷ xs) h ∙ ap (λ m. last (take m (x ∷ y ∷ xs))) e

  pub last-All : (P : A → Type 0) (xs : List A) (x : A) → All P xs → last xs ≡ some x → P x
  last-All P [] x h e = cc
  last-All P (y ∷ []) x h e = subst P (ground arith) h.0
  last-All P (y ∷ z ∷ xs) x h e = last-All P (z ∷ xs) x h.1 e
