-- ===== src/Otp/Tests.antt =====
-- Codes with two attempts; the hash adds one.
use nestjs_homework.Base.{suc, false, none, List, [], ◌∷◌, ◌+◌, ◌*◌, ◌≤◌, ◌≡◌, refl, arith}
use nestjs_homework.Otp.{Cell, accepted, not_found, generate, verify}
use nestjs_homework.Otp.Guesses.{
  OtpEvent, asks, tries, cooldown_expires, tally, guesses_bounded, verify-generate,
}

abbrev empty : Cell
empty = record { code = none; cooldown = false }

abbrev history : List OtpEvent
history = asks 5 ∷ tries 4 ∷ tries 3 ∷ tries 5 ∷ cooldown_expires ∷ asks 6 ∷ tries 6 ∷ []

guesses_bounded_example :
    ((tally suc 2 history empty).compares ≤ 0 + 2 * (tally suc 2 history empty).codes)
    × ((tally suc 2 history empty).codes
        ≤ 1 + (tally suc 2 history empty).successes + (tally suc 2 history empty).cooldowns)
guesses_bounded_example = guesses_bounded suc 2 history empty

verify-generate_example :
    let sent = (generate suc 2 5 empty).1 in
    let used = (verify suc 2 5 sent).1 in
    ((verify suc 2 5 sent).0 ≡ accepted)
    × ((verify suc 2 5 used).0 ≡ not_found)
    × (used.cooldown ≡ false)
verify-generate_example = verify-generate suc 2 5 empty (omega arith) refl
