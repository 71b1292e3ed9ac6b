-- ===== src/Proxy/Breaker.antt =====
-- What holds of the circuit breaker between two events, and over any run of events.
use nestjs_homework.Base.{
  ℕ, suc, true, false, none, some, List, [], ◌∷◌, ◌++◌, ◌+◌, ◌-◌, ◌≤◌, ◌<◌, ◌≡◌, ◌≢◌, refl, arith,
  is_some, length, if◌then◌else◌,
}
use nestjs_homework.Contracts.{Time}
use nestjs_homework.Proxy.{
  closed, open_circuit, half_open, ProxyClient, Settings, init, ProxyEvent, request, response,
  error, timer, handle,
}

-- A probe is in flight exactly in `half-open`, and then its timer runs; the time of opening is known
-- exactly while the circuit is not closed; and the count stays below the threshold.
pub record IsValid (cfg : Settings) (c : ProxyClient) : Type 0 where
  pub half_open_probes : c.state ≡ half_open → c.probe_in_flight ≡ true
  pub probe_half_open : c.probe_in_flight ≡ true → c.state ≡ half_open
  pub probe_timed : c.probe_in_flight ≡ true → is_some c.probe_timeout ≡ true
  pub closed_unopened : c.state ≡ closed → c.circuit_opened_at ≡ none
  pub opened : c.state ≢ closed → is_some c.circuit_opened_at ≡ true
  pub counted : c.failures < cfg.failure_threshold

pub init-IsValid : (cfg : Settings) → 0 < cfg.failure_threshold → IsValid cfg init
init-IsValid cfg h = ground arith

-- Every event at every time keeps the invariant.
pub handle-IsValid :
    (cfg : Settings) (now : Time) (e : ProxyEvent) (c : ProxyClient)
    → IsValid cfg c
    → IsValid cfg (handle cfg now e c).1
unfolding handle
handle-IsValid cfg now request c v = ground arith
handle-IsValid cfg now (response none) c v = ground arith
handle-IsValid cfg now (response (some s)) c v = ground arith
handle-IsValid cfg now error c v = ground arith
handle-IsValid cfg now timer c v = ground arith

-- The events of a run, each with its time, and the number of requests that went through.
unfoldable pub run : Settings → List (Time × ProxyEvent) → ProxyClient → ℕ × ProxyClient
run cfg [] c = (0, c)
run cfg ((now, e) ∷ es) c =
    let (passed, c') = handle cfg now e c in
    let (n, c'') = run cfg es c' in ((if passed then suc n else n), c'')

pub run-IsValid :
    (cfg : Settings) (es : List (Time × ProxyEvent)) (c : ProxyClient)
    → IsValid cfg c
    → IsValid cfg (run cfg es c).1
unfolding run
run-IsValid cfg [] c v = v
run-IsValid cfg ((now, e) ∷ es) c v =
    run-IsValid cfg es (handle cfg now e c).1 (handle-IsValid cfg now e c v)

abbrev pub requests : List Time → List (Time × ProxyEvent)
requests [] = []
requests (now ∷ times) = (now, request) ∷ requests times

half_open_refuses :
    (cfg : Settings) (times : List Time) (c : ProxyClient)
    → c.state ≡ half_open
    → c.probe_in_flight ≡ true
    → run cfg (requests times) c ≡ (0, c)
unfolding run handle
half_open_refuses cfg [] c h p = refl
half_open_refuses cfg (now ∷ times) c h p = ground (arith, half_open_refuses cfg times c h p)

-- While the circuit is not closed, of any number of requests at any times at most one, the probe, goes
-- through before an answer, an error or the probe's timer comes.
pub one_probe :
    (cfg : Settings) (times : List Time) (c : ProxyClient)
    → IsValid cfg c
    → c.state ≢ closed
    → (run cfg (requests times) c).0 ≤ 1
unfolding run handle
one_probe cfg [] c v live = omega arith
one_probe cfg (now ∷ times) c v live =
    ground (
      arith,
      one_probe cfg times c v live,
      half_open_refuses cfg times (handle cfg now request c).1,
    )

-- An open circuit lets nothing through until more than `RESET_AFTER_MS` have passed since it opened.
pub open_refuses :
    (cfg : Settings) (now t : Time) (c : ProxyClient)
    → c.state ≡ open_circuit
    → c.circuit_opened_at ≡ some t
    → now - t ≤ cfg.reset_after_ms
    → handle cfg now request c ≡ (false, c)
unfolding handle
open_refuses cfg now t c h o late = ground arith

abbrev pub errors : List Time → List (Time × ProxyEvent)
errors [] = []
errors (now ∷ times) = (now, error) ∷ errors times

-- Errors in a row that do not bring the count to the threshold leave a closed circuit closed.
pub errors_counted :
    (cfg : Settings) (times : List Time) (c : ProxyClient)
    → c.state ≡ closed
    → c.failures + length times < cfg.failure_threshold
    → ((run cfg (errors times) c).1.state ≡ closed)
      × ((run cfg (errors times) c).1.failures ≡ c.failures + length times)
unfolding run handle
errors_counted cfg [] c h lt = (h, omega arith)
errors_counted cfg (now ∷ times) c h lt =
    ground (arith, errors_counted cfg times (handle cfg now error c).1)

-- As many errors in a row as are missing to the threshold open a closed circuit, at the time of the
-- last of them.
pub errors_trip :
    (cfg : Settings) (times : List Time) (last : Time) (c : ProxyClient)
    → c.state ≡ closed
    → c.failures + length times + 1 ≡ cfg.failure_threshold
    → let c' = (run cfg (errors (times ++ last ∷ [])) c).1 in
      (c'.state ≡ open_circuit) × (c'.circuit_opened_at ≡ some last) × (c'.failures ≡ 0)
unfolding run handle
errors_trip cfg [] last c h e = ground arith
errors_trip cfg (now ∷ times) last c h e =
    ground (arith, errors_trip cfg times last (handle cfg now error c).1)
