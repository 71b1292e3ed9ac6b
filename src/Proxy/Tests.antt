-- ===== src/Proxy/Tests.antt =====
-- The circuit breaker with a threshold of three errors and a pause of ten.
use nestjs_homework.Base.{some, [], ◌∷◌, ◌++◌, ◌≤◌, ◌≡◌, refl, arith}
use nestjs_homework.Proxy.{ProxyClient, Settings, open_circuit, init, failure, handle}
use nestjs_homework.Proxy.Breaker.{
  IsValid, init-IsValid, run, run-IsValid, requests, one_probe, errors, errors_trip,
}

abbrev settings : Settings
settings = record { failure_threshold = 3; reset_after_ms = 10; proxy_timeout_ms = 5 }

abbrev broken : ProxyClient
broken = (run settings (errors (1 ∷ 2 ∷ 3 ∷ [])) init).1

settings-IsValid : IsValid settings init
settings-IsValid = init-IsValid settings (omega arith)

broken_open : broken.state ≡ open_circuit
unfolding run handle failure
broken_open = refl

run-IsValid_example : IsValid settings broken
run-IsValid_example = run-IsValid settings (errors (1 ∷ 2 ∷ 3 ∷ [])) init settings-IsValid

one_probe_example : (run settings (requests (14 ∷ 15 ∷ [])) broken).0 ≤ 1
one_probe_example =
    one_probe settings (14 ∷ 15 ∷ []) broken
      (run-IsValid settings (errors (1 ∷ 2 ∷ 3 ∷ [])) init settings-IsValid)
      (λ h. cc (h, broken_open))

errors_trip_example :
    let c = (run settings (errors ((1 ∷ 2 ∷ []) ++ 3 ∷ [])) init).1 in
    (c.state ≡ open_circuit) × (c.circuit_opened_at ≡ some 3) × (c.failures ≡ 0)
errors_trip_example = errors_trip settings (1 ∷ 2 ∷ []) 3 init refl refl
