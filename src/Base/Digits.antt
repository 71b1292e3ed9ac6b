-- ===== src/Base/Digits.antt =====
-- `n.toString()`: a number in decimal digits, and the number that digits write.
use Prim.Native.Nat.{ℕ, zero, suc, ◌+◌, ◌-◌, ◌*◌, ◌/◌, ◌%◌, ◌≤◌, ◌<◌}
use mathlib.Core.Path.{◌≡◌, refl, ◌∙◌}
use mathlib.Core.Logic.{inl, inr}
use mathlib.Core.List.{[], ◌∷◌, ◌++◌}
use native.Mathlib.Omega.{arith}
use nestjs_homework.Base.Tests.{ltb, if◌then◌else◌, Bool-cases}
use nestjs_homework.Base.Lists.{Text, All, All-append, length, length-append}

-- With fuel.
unfoldable pub digits : ℕ → ℕ → Text
digits zero n = []
digits (suc fuel) n =
    let rest = digits fuel (n / 10) in
    if ltb n 10 then (48 + n) ∷ [] else rest ++ (48 + n % 10) ∷ []

abbrev pub decimal : ℕ → Text
decimal n = digits (suc n) n

-- The number that digits write, after those that write `acc`.
unfoldable pub read_digits : ℕ → Text → ℕ
read_digits acc [] = acc
read_digits acc (c ∷ cs) = read_digits (acc * 10 + (c - 48)) cs

read_digits-append :
    (acc : ℕ) (cs ds : Text) → read_digits acc (cs ++ ds) ≡ read_digits (read_digits acc cs) ds
unfolding read_digits
read_digits-append acc [] ds = refl
read_digits-append acc (c ∷ cs) ds = read_digits-append (acc * 10 + (c - 48)) cs ds

read_digits-digits : (fuel n : ℕ) → n < fuel → read_digits 0 (digits fuel n) ≡ n
unfolding digits read_digits
read_digits-digits zero n h = absurd (omega arith)
read_digits-digits (suc fuel) n h = elim (Bool-cases (ltb n 10)) [
  | inl small ↦ rw small (omega arith)
  | inr large ↦ rw large (
      let tens = read_digits-digits fuel (n / 10) (ground arith) in
      read_digits-append 0 (digits fuel (n / 10)) ((48 + n % 10) ∷ []) ∙ rw tens (omega arith))
]

pub read_digits-decimal : (n : ℕ) → read_digits 0 (decimal n) ≡ n
read_digits-decimal n = read_digits-digits (suc n) n (omega arith)

abbrev pub IsDigit : ℕ → Type 0
IsDigit c = (48 ≤ c) × (c < 58)

digits-IsDigit : (fuel n : ℕ) → All IsDigit (digits fuel n)
unfolding digits
digits-IsDigit zero n = tt
digits-IsDigit (suc fuel) n = elim (Bool-cases (ltb n 10)) [
  | inl small ↦ rw small ((omega arith, ground arith), tt)
  | inr large ↦ rw large (
      All-append IsDigit (digits fuel (n / 10)) ((48 + n % 10) ∷ []) (digits-IsDigit fuel (n / 10))
        ((omega arith, omega arith), tt))
]

pub decimal-IsDigit : (n : ℕ) → All IsDigit (decimal n)
decimal-IsDigit n = digits-IsDigit (suc n) n

-- One digit is enough for less than ten.
pub digits_small : (fuel n : ℕ) → 1 ≤ fuel → n < 10 → digits fuel n ≡ (48 + n) ∷ []
unfolding digits
digits_small zero n h k = absurd (omega arith)
digits_small (suc fuel) n h k = ground arith

pub decimal_large : (n : ℕ) → 10 ≤ n → decimal n ≡ digits n (n / 10) ++ (48 + n % 10) ∷ []
unfolding digits
decimal_large n h = ground arith

pub decimal_given : (n : ℕ) → 1 ≤ length (decimal n)
decimal_given n = elim (Bool-cases (ltb n 10)) [
  | inl small ↦ rw (digits_small (suc n) n (omega arith) (ground arith)) (omega arith)
  | inr large ↦
      rw (decimal_large n (ground arith), length-append (digits n (n / 10)) ((48 + n % 10) ∷ []))
        (omega arith)
]
