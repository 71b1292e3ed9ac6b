-- ===== src/Guards/Headers.antt =====
-- Which requests the guard of the headers lets through.
use nestjs_homework.Base.{
  ℕ, Bool, true, false, Option, none, some, List, [], ◌∷◌, ◌==◌, ◌≡◌, ◌⊎◌, ◌↔◌, refl, ap, arith,
  any, All, Text, same_text_eq, same_text_refl, if◌then◌else◌, Bool-cases, inl, inr,
}
use nestjs_homework.Base.Result.{ok}
use nestjs_homework.Guards.{
  Header, header_of, is_absent, all_present, differs, all_valid, headers_can_activate,
}

-- The header is in the request, with a text that is not empty.
abbrev pub IsPresent : List Header → ℕ → Type 0
IsPresent request name = is_absent (header_of name request) ≡ false

-- The method does not ask for the header, or the request has it with the expected value.
abbrev pub IsValid : List ℕ → List Header → Header → Type 0
IsValid names request v =
    (any (λ n. n == v.name) names ≡ false) ⊎ (header_of v.name request ≡ some v.value)

all_present-All :
    (names : List ℕ) (request : List Header)
    → (all_present names request ≡ true) ↔ All (IsPresent request) names
unfolding all_present
all_present-All [] request = ((λ h. tt), (λ h. refl))
all_present-All (n ∷ names) request =
    let rest = all_present-All names request in
    elim (Bool-cases (is_absent (header_of n request))) [
      | inl absent ↦ rw absent ((λ h. cc), (λ h. cc))
      | inr present ↦ rw present ((λ h. (refl, rest.0 h)), (λ h. rest.1 h.1))
    ]

same_of_differs :
    (value : Option Text) (expected : Text) → differs value expected ≡ false → value ≡ some expected
same_of_differs none expected h = cc
same_of_differs (some incoming) expected h = ap some (same_text_eq incoming expected (ground arith))

differs-same :
    (value : Option Text) (expected : Text) → value ≡ some expected → differs value expected ≡ false
differs-same value expected h = rw (h, same_text_refl expected) refl

if-IsValid :
    (v : Header) (names : List ℕ) (request : List Header) (rest : Bool)
    → ((if any (λ n. n == v.name) names
          then (if differs (header_of v.name request) v.value then false else rest)
          else rest)
        ≡ true)
      ↔ (IsValid names request v × (rest ≡ true))
if-IsValid v names request rest = elim (Bool-cases (any (λ n. n == v.name) names)) [
  | inr free ↦ rw free ((λ h. (inl refl, h)), (λ h. h.1))
  | inl asked ↦ elim (Bool-cases (differs (header_of v.name request) v.value)) [
    | inr same ↦
        rw (asked, same)
          ((λ h. (inr (same_of_differs (header_of v.name request) v.value same), h)), (λ h. h.1))
    | inl other ↦
        rw (asked, other)
          (
            (λ h. cc),
            (λ h. elim h.0 [
              | inl free ↦ cc
              | inr same ↦ cc (differs-same (header_of v.name request) v.value same)
            ]),
          )
  ]
]

all_valid-All :
    (validators : List Header) (names : List ℕ) (request : List Header)
    → (all_valid validators names request ≡ true) ↔ All (IsValid names request) validators
unfolding all_valid
all_valid-All [] names request = ((λ h. tt), (λ h. refl))
all_valid-All (v ∷ validators) names request =
    let one = if-IsValid v names request (all_valid validators names request) in
    let rest = all_valid-All validators names request in
    ((λ h. ((one.0 h).0, rest.0 (one.0 h).1)), (λ h. one.1 (h.0, rest.1 h.1)))

-- A request is let through exactly if every header that the method asks for is there, and each of those that has a
-- validator has the expected value.
pub headers_can_activate_iff :
    (validators : List Header) (names : List ℕ) (request : List Header)
    → (headers_can_activate validators (some names) request ≡ ok true)
      ↔ (All (IsPresent request) names × All (IsValid names request) validators)
unfolding headers_can_activate
headers_can_activate_iff validators names request =
    let present = all_present-All names request in
    let valid = all_valid-All validators names request in
    elim (Bool-cases (all_present names request)) [
      | inr lacking ↦ rw lacking ((λ h. cc), (λ h. cc (present.1 h.0)))
      | inl there ↦ elim (Bool-cases (all_valid validators names request)) [
        | inl good ↦ rw (there, good) ((λ h. (present.0 there, valid.0 good)), (λ h. refl))
        | inr bad ↦ rw (there, bad) ((λ h. cc), (λ h. cc (valid.1 h.1)))
      ]
    ]
