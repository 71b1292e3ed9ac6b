-- ===== src/Otp/Guesses.antt =====
-- How often a code can be guessed, and what a right code does.
use nestjs_homework.Base.{
  ℕ, Bool, true, false, Option, none, some, List, [], ◌∷◌, ◌+◌, ◌-◌, ◌*◌, ◌≤◌, ◌<◌, ◌≡◌, arith,
}
use nestjs_homework.Otp.{
  StoredCode, Cell, OtpReply, sent, accepted, not_found, unauthenticated, generate, verify,
}

-- What happens to a cell: the two calls, and the expiry of either key.
pub data OtpEvent : Type 0 where
  asks : ℕ → OtpEvent
  tries : ℕ → OtpEvent
  code_expires : OtpEvent
  cooldown_expires : OtpEvent

-- The code was compared with the stored one.
abbrev pub compared : OtpReply → ℕ
compared accepted = 1
compared (unauthenticated left) = 1
compared _ = 0

abbrev pub was_sent : OtpReply → ℕ
was_sent (sent code) = 1
was_sent _ = 0

abbrev pub was_accepted : OtpReply → ℕ
was_accepted accepted = 1
was_accepted _ = 0

-- How many codes were compared, sent and accepted in a run, and how many cooldowns expired.
pub record Tally : Type 0 where
  pub compares : ℕ
  pub codes : ℕ
  pub successes : ℕ
  pub cooldowns : ℕ

abbrev pub unlocked : Bool → ℕ
unlocked true = 0
unlocked false = 1

module _ (sha : ℕ → ℕ) (attempts_count : ℕ) where
  pub react : OtpEvent → Cell → OtpReply × Cell
  react (asks code) cell = generate sha attempts_count code cell
  react (tries code) cell = verify sha attempts_count code cell
  react code_expires cell = (not_found, record cell { code = none })
  react cooldown_expires cell = (not_found, record cell { cooldown = false })

  abbrev expired : OtpEvent → ℕ
  expired cooldown_expires = 1
  expired _ = 0

  pub tally : List OtpEvent → Cell → Tally
  tally [] cell = record { compares = 0; codes = 0; successes = 0; cooldowns = 0 }
  tally (e ∷ es) cell =
      let (reply, cell') = react e cell in
      let rest = tally es cell' in
      record {
        compares = compared reply + rest.compares;
        codes = was_sent reply + rest.codes;
        successes = was_accepted reply + rest.successes;
        cooldowns = expired e + rest.cooldowns;
      }

  -- The comparisons that the stored code still allows.
  abbrev budget : Option StoredCode → ℕ
  budget none = 0
  budget (some stored) = attempts_count - stored.attempts

  step_budget :
      (e : OtpEvent) (cell : Cell)
      → compared (react e cell).0 + budget (react e cell).1.code
        ≤ budget cell.code + attempts_count * was_sent (react e cell).0
  unfolding react generate verify
  step_budget (asks code) cell = ground arith
  step_budget (tries code) cell = ground arith
  step_budget code_expires cell = ground arith
  step_budget cooldown_expires cell = ground arith

  step_codes :
      (e : OtpEvent) (cell : Cell)
      → was_sent (react e cell).0 + unlocked (react e cell).1.cooldown
        ≤ unlocked cell.cooldown + was_accepted (react e cell).0 + expired e
  unfolding react generate verify
  step_codes (asks code) cell = ground arith
  step_codes (tries code) cell = ground arith
  step_codes code_expires cell = ground arith
  step_codes cooldown_expires cell = ground arith

  -- Over any run of calls and expiries: each code that was sent allows at most the configured number of
  -- comparisons; and a new code is sent only for a cooldown that expired or a code that was accepted,
  -- but for the first where no cooldown stands.
  pub guesses_bounded :
      (es : List OtpEvent) (cell : Cell)
      → ((tally es cell).compares ≤ budget cell.code + attempts_count * (tally es cell).codes)
        × ((tally es cell).codes
            ≤ unlocked cell.cooldown + (tally es cell).successes + (tally es cell).cooldowns)
  unfolding tally
  guesses_bounded [] cell = (omega arith, omega arith)
  guesses_bounded (e ∷ es) cell =
      let (reply, cell') = react e cell in
      let ih = guesses_bounded es cell' in
      (omega (arith, step_budget e cell, ih.0), omega (arith, step_codes e cell, ih.1))

  -- A code that was sent is accepted once if an attempt is allowed; then both keys are gone, so the
  -- same code is not found and a new one may be asked for at once.
  pub verify-generate :
      (code : ℕ) (cell : Cell)
      → 0 < attempts_count
      → cell.cooldown ≡ false
      → let cell' = (generate sha attempts_count code cell).1 in
        let cell'' = (verify sha attempts_count code cell').1 in
        ((verify sha attempts_count code cell').0 ≡ accepted)
        × ((verify sha attempts_count code cell'').0 ≡ not_found)
        × (cell''.cooldown ≡ false)
  unfolding generate verify
  verify-generate code cell h c = ground arith
