-- ===== src/Balance/Money.antt =====
-- `toDollarsStr` of shared/extensions/bigint.extension.ts: how an amount of cents is shown.
use nestjs_homework.Base.{
  ℕ, zero, suc, Bool, true, Option, none, some, [], ◌∷◌, ◌++◌, ◌+◌, ◌-◌, ◌*◌, ◌/◌, ◌%◌, ◌<◌, ◌≤◌,
  ◌==◌, ◌&&◌, ◌≡◌, refl, arith, ap, ◌∙◌, sym, length, leb, ltb, Text, codes, decimal, read_digits,
  read_digits-decimal, IsDigit, decimal-IsDigit, decimal_given, decimal_large, digits_small, All,
  if◌then◌else◌, Bool-cases, inl, inr,
}
use nestjs_homework.Base.Int.{ℤ, pos, negsuc, neg, ◌-ℤ◌, ltb_ℤ, pos_part, neg_part}

abbrev repeat : ℕ → ℕ → Text
repeat zero c = []
repeat (suc n) c = c ∷ repeat n c

-- `t.padStart(n, c)` with one character `c`.
abbrev pub pad_start : ℕ → ℕ → Text → Text
pad_start n c t = repeat (n - length t) c ++ t

-- `result`, from the absolute value.
unfoldable pub dollars_of : ℕ → Text
dollars_of abs =
    let remainder = abs % 100 in
    if remainder == 0
    then decimal (abs / 100)
    else decimal (abs / 100) ++ (codes "." ++ pad_start 2 48 (decimal remainder))

unfoldable pub to_dollars_str : ℤ → Text
unfolding dollars_of
to_dollars_str value =
    let below = ltb_ℤ value (pos 0) in
    let result = dollars_of (if below then neg_part value else pos_part value) in
    if below then codes "-" ++ result else result

-- How an amount is read: digits, and where there is a point exactly two digits after it.
abbrev pub is_digit : ℕ → Bool
is_digit c = leb 48 c && ltb c 58

abbrev pub read_cents : ℕ → Text → Option ℕ
read_cents whole [] = none
read_cents whole (a ∷ []) = none
read_cents whole (a ∷ b ∷ []) =
    if is_digit a && is_digit b then some (whole * 100 + (a - 48) * 10 + (b - 48)) else none
read_cents whole (a ∷ b ∷ c ∷ cs) = none

unfoldable pub read_whole : ℕ → Text → Option ℕ
read_whole whole [] = some (whole * 100)
read_whole whole (c ∷ cs) =
    let rest = read_whole (whole * 10 + (c - 48)) cs in
    if c == 46 then read_cents whole cs else if is_digit c then rest else none

-- The first character of an amount without a sign is a digit.
unfoldable pub read_unsigned : Text → Option ℕ
unfolding read_whole
read_unsigned [] = none
read_unsigned (c ∷ cs) = if is_digit c then read_whole 0 (c ∷ cs) else none

unfoldable pub read_dollars : Text → Option ℤ
unfolding read_unsigned
read_dollars [] = none
read_dollars (c ∷ cs) =
    if c == 45
    then elim (read_unsigned cs) [ none ↦ none | some n ↦ some (neg (pos n)) ]
    else elim (read_unsigned (c ∷ cs)) [ none ↦ none | some n ↦ some (pos n) ]

read_whole-append :
    (whole : ℕ) (ds rest : Text)
    → All IsDigit ds
    → read_whole whole (ds ++ rest) ≡ read_whole (read_digits whole ds) rest
unfolding read_whole read_digits
read_whole-append whole [] rest h = refl
read_whole-append whole (d ∷ ds) rest h =
    ground (arith, read_whole-append (whole * 10 + (d - 48)) ds rest h.1)

-- Two digits for less than a hundred.
two_digits : (r : ℕ) → r < 100 → pad_start 2 48 (decimal r) ≡ (48 + r / 10) ∷ (48 + r % 10) ∷ []
two_digits r h = elim (Bool-cases (ltb r 10)) [
  | inl small ↦ rw (digits_small (suc r) r (omega arith) (ground arith)) (ground arith)
  | inr large ↦
      rw (decimal_large r (ground arith), digits_small r (r / 10) (ground arith) (omega arith)) refl
]

read_cents-two_digits :
    (whole r : ℕ)
    → r < 100
    → read_cents whole ((48 + r / 10) ∷ (48 + r % 10) ∷ []) ≡ some (whole * 100 + r)
read_cents-two_digits whole r h = ground arith

read_unsigned_digit :
    (d : ℕ) (ds : Text) → is_digit d ≡ true → read_unsigned (d ∷ ds) ≡ read_whole 0 (d ∷ ds)
unfolding read_unsigned
read_unsigned_digit d ds h = rw h refl

read_unsigned_lem :
    (ds rest : Text)
    → 1 ≤ length ds
    → All IsDigit ds
    → read_unsigned (ds ++ rest) ≡ read_whole (read_digits 0 ds) rest
read_unsigned_lem [] rest h k = absurd (omega arith)
read_unsigned_lem (d ∷ ds) rest h k =
    read_unsigned_digit d (ds ++ rest) (ground arith) ∙ read_whole-append 0 (d ∷ ds) rest k

read_decimal : (n : ℕ) (rest : Text) → read_unsigned (decimal n ++ rest) ≡ read_whole n rest
read_decimal n rest =
    read_unsigned_lem (decimal n) rest (decimal_given n) (decimal-IsDigit n)
    ∙ ap (λ k. read_whole k rest) (read_digits-decimal n)

read_point : (n : ℕ) (cs : Text) → read_whole n (codes "." ++ cs) ≡ read_cents n cs
unfolding read_whole
read_point n cs = refl

read_end : (n : ℕ) → read_whole n [] ≡ some (n * 100)
unfolding read_whole
read_end n = refl

append_nil : (t : Text) → t ++ [] ≡ t
append_nil [] = refl
append_nil (c ∷ t) = ap (λ r. c ∷ r) (append_nil t)

read_dollars_of : (n : ℕ) → read_unsigned (dollars_of n) ≡ some n
unfolding dollars_of
read_dollars_of n = elim (Bool-cases (n % 100 == 0)) [
  | inl whole ↦ rw whole (
      ap read_unsigned (sym (append_nil (decimal (n / 100))))
      ∙ read_decimal (n / 100) []
      ∙ read_end (n / 100)
      ∙ ap some (ground arith))
  | inr cents ↦ rw cents (
      read_decimal (n / 100) _
      ∙ read_point (n / 100) _
      ∙ ap (read_cents (n / 100)) (two_digits (n % 100) (omega arith))
      ∙ read_cents-two_digits (n / 100) (n % 100) (omega arith)
      ∙ ap some (omega arith))
]

-- A text that can be read without a sign has none.
unsigned : (t : Text) (n : ℕ) → read_unsigned t ≡ some n → read_dollars t ≡ some (pos n)
unfolding read_unsigned read_dollars
unsigned [] n h = cc
unsigned (c ∷ cs) n h = elim (Bool-cases (c == 45)) [
  | inl minus ↦ absurd (ground arith)
  | inr digit ↦ rw (digit, h) refl
]

signed :
    (t : Text) (n : ℕ)
    → read_unsigned t ≡ some n
    → read_dollars (codes "-" ++ t) ≡ some (neg (pos n))
unfolding read_dollars
signed t n h = rw h refl

shown_pos : (n : ℕ) → to_dollars_str (pos n) ≡ dollars_of n
unfolding to_dollars_str
shown_pos n = ground arith

shown_negsuc : (n : ℕ) → to_dollars_str (negsuc n) ≡ codes "-" ++ dollars_of (suc n)
unfolding to_dollars_str
shown_negsuc n = ground arith

neg_pos : (n : ℕ) → neg (pos (suc n)) ≡ negsuc n
unfolding ◌-ℤ◌
neg_pos n = ground arith

-- The text that is shown for an amount reads as that amount, to the cent and with its sign, by a reader
-- that wants a digit first, at most one sign, and exactly two digits after a point.
pub read_dollars-to_dollars_str : (value : ℤ) → read_dollars (to_dollars_str value) ≡ some value
read_dollars-to_dollars_str (pos n) =
    ap read_dollars (shown_pos n) ∙ unsigned (dollars_of n) n (read_dollars_of n)
read_dollars-to_dollars_str (negsuc n) =
    ap read_dollars (shown_negsuc n)
    ∙ signed (dollars_of (suc n)) (suc n) (read_dollars_of (suc n))
    ∙ ap some (neg_pos n)
