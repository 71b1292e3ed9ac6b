-- ===== src/Grpc/Tests.antt =====
-- A call that times out once and is answered at the second attempt.
use nestjs_homework.Base.{ℕ, zero, suc, ◌+◌, ◌≡◌, refl}
use nestjs_homework.Base.Result.{ok}
use nestjs_homework.Grpc.{Attempt, answered, timed_out, settle, call}
use nestjs_homework.Grpc.Client.{CallEnd, call_outcome}

abbrev late_answer : ℕ → Attempt ℕ
late_answer zero = timed_out
late_answer (suc n) = answered 4

two_attempts : call late_answer 2 0 ≡ (2, ok 4)
unfolding call
two_attempts = refl

call_outcome_example :
    (e : CallEnd late_answer 2 0 (call late_answer 2 0).0) × ((call late_answer 2 0).1
      ≡ settle (late_answer (0 + e.last)))
call_outcome_example = call_outcome late_answer 2 0
