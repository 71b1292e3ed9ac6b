-- ===== src/Grpc.antt =====
-- The gRPC client of libs/grpc/client/abstracts/grpc-client.abstract.ts with its retries, and how
-- libs/grpc/client/filters/grpc-exception.filter.ts turns what is thrown into an HTTP status. The
-- operators `timeout` and `retry` of rxjs are read by their documentation: each attempt has the
-- timeout, and `retry` subscribes again at most `count` times, unless `delay` throws.
pub mod Client
mod Tests
use nestjs_homework.Base.{ℕ, zero, suc, Bool, true, false, ◌+◌, ◌==◌, if◌then◌else◌}
use nestjs_homework.Base.Result.{Result, ok, err}

-- `GrpcStatus`, the codes of gRPC.
pub data GrpcStatus : Type 0 where
  status_ok cancelled unknown invalid_argument deadline_exceeded not_found already_exists :
      GrpcStatus
  permission_denied resource_exhausted failed_precondition aborted out_of_range : GrpcStatus
  unimplemented internal unavailable data_loss unauthenticated : GrpcStatus

-- How one subscription ends: with an answer, a `TimeoutError`, or an error with a code.
pub data Attempt (A : Type 0) : Type 0 where
  answered : A → Attempt A
  timed_out : Attempt A
  failed : GrpcStatus → Attempt A

-- `noRetryStatuses.includes(err?.code)`
abbrev pub no_retry : GrpcStatus → Bool
no_retry invalid_argument = true
no_retry not_found = true
no_retry already_exists = true
no_retry permission_denied = true
no_retry unauthenticated = true
no_retry _ = false

-- The errors that `delay` throws on.
abbrev pub gives_up : {A : Type 0} → Attempt A → Bool
gives_up (answered a) = true
gives_up timed_out = false
gives_up (failed code) = no_retry code

-- `catchError`: a timeout becomes `UNAVAILABLE`.
abbrev pub settle : {A : Type 0} → Attempt A → Result GrpcStatus A
settle (answered a) = ok a
settle timed_out = err unavailable
settle (failed code) = err code

-- The number of subscriptions and what the call ends with, from attempt `i` on with so many retries
-- left; `attempt` tells how each subscription ends.
unfoldable pub call : {A : Type 0} → (ℕ → Attempt A) → ℕ → ℕ → ℕ × Result GrpcStatus A
call attempt zero i = (1, settle (attempt i))
call attempt (suc retries) i =
    let rest = call attempt retries (suc i) in
    if gives_up (attempt i) then (1, settle (attempt i)) else (suc rest.0, rest.1)

-- `grpcToHttpStatus`
abbrev pub grpc_to_http_status : GrpcStatus → ℕ
grpc_to_http_status status_ok = 200
grpc_to_http_status cancelled = 499
grpc_to_http_status unknown = 500
grpc_to_http_status invalid_argument = 400
grpc_to_http_status deadline_exceeded = 504
grpc_to_http_status not_found = 404
grpc_to_http_status already_exists = 409
grpc_to_http_status permission_denied = 403
grpc_to_http_status resource_exhausted = 429
grpc_to_http_status failed_precondition = 400
grpc_to_http_status aborted = 409
grpc_to_http_status out_of_range = 400
grpc_to_http_status unimplemented = 501
grpc_to_http_status internal = 500
grpc_to_http_status unavailable = 503
grpc_to_http_status data_loss = 500
grpc_to_http_status unauthenticated = 401

-- What reaches the filter: an error with `code` and `details`, an `HttpException`, or another.
pub data Thrown : Type 0 where
  grpc_error : GrpcStatus → Thrown
  http_exception : ℕ → Thrown
  other_error : Thrown

-- The status of the response; `grpcToHttpStatus[code] || 500`.
unfoldable pub catch_exception : Thrown → ℕ
catch_exception (grpc_error code) =
    let status = grpc_to_http_status code in if status == 0 then 500 else status
catch_exception (http_exception status) = status
catch_exception other_error = 500
