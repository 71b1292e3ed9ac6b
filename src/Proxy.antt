-- ===== src/Proxy.antt =====
-- The circuit breaker of libs/proxy/client/abstracts/proxy-client.abstract.ts, which guards the
-- proxying to file-service. The clock's value is an argument of each operation; the timer of a probe
-- is the time at which it fires, and `probe_timer` is its callback.
pub mod Breaker
mod Tests
use nestjs_homework.Base.{
  ℕ, Bool, true, false, Option, none, some, ◌+◌, ◌-◌, ◌==◌, not, ltb, leb, if◌then◌else◌,
}
use nestjs_homework.Contracts.{Time}

pub data CircuitState : Type 0 where
  closed open_circuit half_open : CircuitState

pub record ProxyClient : Type 0 where
  pub state : CircuitState
  pub failures : ℕ
  pub circuit_opened_at : Option Time
  pub probe_in_flight : Bool
  pub probe_timeout : Option Time

-- The constructor's numbers.
pub record Settings : Type 0 where
  pub failure_threshold : ℕ
  pub reset_after_ms : ℕ
  pub proxy_timeout_ms : ℕ

abbrev pub init : ProxyClient
init = record {
  state = closed;
  failures = 0;
  circuit_opened_at = none;
  probe_in_flight = false;
  probe_timeout = none;
}

-- The old timer is cleared: one timer at a time.
abbrev pub start_probe_timeout : Settings → Time → ProxyClient → ProxyClient
start_probe_timeout cfg now c = record c {
  probe_timeout = some (now + cfg.proxy_timeout_ms + 1000);
}

abbrev pub start_probe : Settings → Time → ProxyClient → ProxyClient
start_probe cfg now c = start_probe_timeout cfg now (record c { probe_in_flight = true })

-- `Date.now() - this.circuitOpenedAt!`: `null` counts as 0.
abbrev pub since_opened : Time → Option Time → ℕ
since_opened now none = now
since_opened now (some t) = now - t

is_open_in : Settings → Time → CircuitState → ProxyClient → Bool × ProxyClient
is_open_in cfg now closed c = (false, c)
is_open_in cfg now open_circuit c =
    if leb (since_opened now c.circuit_opened_at) cfg.reset_after_ms
    then (true, c)
    else (false, start_probe cfg now (record c { state = half_open }))
is_open_in cfg now half_open c =
    if c.probe_in_flight then (true, c) else (false, start_probe cfg now c)

unfoldable pub is_circuit_open : Settings → Time → ProxyClient → Bool × ProxyClient
unfolding is_open_in
is_circuit_open cfg now c = is_open_in cfg now c.state c

unfoldable pub success : ProxyClient → ProxyClient
success c = record {
  state = closed;
  failures = 0;
  circuit_opened_at = none;
  probe_in_flight = false;
  probe_timeout = none;
}

abbrev open_again : Time → ProxyClient → ProxyClient
open_again now c = record {
  state = open_circuit;
  failures = 0;
  circuit_opened_at = some now;
  probe_in_flight = false;
  probe_timeout = none;
}

-- The count of a failure outside `half-open`.
count_failure : Settings → Time → ProxyClient → ProxyClient
count_failure cfg now c =
    if leb cfg.failure_threshold (c.failures + 1)
    then record c {
      state = open_circuit;
      failures = 0;
      circuit_opened_at = some now;
      probe_in_flight = false;
      probe_timeout = none;
    }
    else record c { failures = c.failures + 1; probe_in_flight = false; probe_timeout = none }

failure_in : Settings → Time → CircuitState → ProxyClient → ProxyClient
failure_in cfg now half_open c = if c.probe_in_flight then open_again now c else c
failure_in cfg now closed c = count_failure cfg now c
failure_in cfg now open_circuit c = count_failure cfg now c

unfoldable pub failure : Settings → Time → ProxyClient → ProxyClient
unfolding failure_in count_failure
failure cfg now c = failure_in cfg now c.state c

-- The callback of the probe's timer; the timer has fired and is no longer pending.
unfoldable pub probe_timer : Settings → Time → ProxyClient → ProxyClient
unfolding failure
probe_timer cfg now c = if c.probe_in_flight then failure cfg now c else c

-- `proxyRes`: an answer below 500 is a success; no status counts as a failure.
unfoldable pub proxy_res : Settings → Time → Option ℕ → ProxyClient → ProxyClient
unfolding success failure
proxy_res cfg now none c = failure cfg now c
proxy_res cfg now (some status) c =
    if status == 0
    then failure cfg now c
    else if ltb status 500
    then success c
    else failure cfg now c

-- What happens to the client: a request, an answer, an error of the connection, the timer.
pub data ProxyEvent : Type 0 where
  request : ProxyEvent
  response : Option ℕ → ProxyEvent
  error : ProxyEvent
  timer : ProxyEvent

-- One event at a time; the Boolean says that a request went through to the service.
unfoldable pub handle : Settings → Time → ProxyEvent → ProxyClient → Bool × ProxyClient
unfolding is_circuit_open proxy_res probe_timer
handle cfg now request c = let (refused, c') = is_circuit_open cfg now c in (not refused, c')
handle cfg now (response status) c = (false, proxy_res cfg now status c)
handle cfg now error c = (false, failure cfg now c)
handle cfg now timer c = (false, probe_timer cfg now c)
