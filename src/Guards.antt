-- ===== src/Guards.antt =====
-- The guards: libs/grpc/server/guard/grpc-auth.guard.ts for calls between the services, with the metadata that
-- libs/grpc/client/abstracts/grpc-client.abstract.ts sends; libs/proxy/server/guards/headers.guard.ts for requests that the
-- gateway passes on; and two of apps/gateway/src/common/guards. A guard is what it answers or throws.
pub mod Calls
pub mod Headers
mod Tests
use nestjs_homework.Base.{
  ℕ, Bool, true, false, Option, none, some, List, [], ◌∷◌, ◌++◌, ◌*◌, ◌==◌, not, any, ltb, is_some,
  Text, codes, starts_with, without_first, same_text, if◌then◌else◌,
}
use nestjs_homework.Base.Result.{Result, ok, err}
use nestjs_homework.Contracts.{Role, user, admin}
use nestjs_homework.Grpc.{GrpcStatus, unauthenticated}

-- `allowedTokens.includes(token)`
abbrev pub includes : List Text → Text → Bool
includes tokens token = any (λ t. same_text t token) tokens

-- The values of `authorization` in the metadata; an empty token adds none.
unfoldable pub metadata_of : Option Text → List Text
metadata_of none = []
metadata_of (some []) = []
metadata_of (some (c ∷ cs)) = (codes "Bearer " ++ c ∷ cs) ∷ []

-- `GrpcAuthGuard.canActivate`, with the list that the method has.
unfoldable pub grpc_can_activate : Option (List Text) → List Text → Result GrpcStatus Bool
grpc_can_activate none values = err unauthenticated
grpc_can_activate (some allowed) [] = err unauthenticated
grpc_can_activate (some allowed) (v ∷ values) =
    if includes allowed (without_first (codes "Bearer ") v) then ok true else err unauthenticated

-- A header with its value, or a validator with the expected value.
pub record Header : Type 0 where
  pub name : ℕ
  pub value : Text

-- `req.headers[header]`
abbrev pub header_of : ℕ → List Header → Option Text
header_of name [] = none
header_of name (h ∷ hs) = if h.name == name then some h.value else header_of name hs

pub data HeaderFault : Type 0 where
  bad_request unauthorized : HeaderFault

-- `!req.headers[header]`
abbrev pub is_absent : Option Text → Bool
is_absent none = true
is_absent (some []) = true
is_absent (some (c ∷ cs)) = false

-- The first loop: every header that is asked for is there.
unfoldable pub all_present : List ℕ → List Header → Bool
all_present [] request = true
all_present (n ∷ names) request =
    let rest = all_present names request in if is_absent (header_of n request) then false else rest

-- `incoming !== expected`
abbrev pub differs : Option Text → Text → Bool
differs none expected = true
differs (some incoming) expected = not (same_text incoming expected)

-- The second loop, over the validators.
unfoldable pub all_valid : List Header → List ℕ → List Header → Bool
all_valid [] names request = true
all_valid (v ∷ validators) names request =
    let rest = all_valid validators names request in
    if any (λ n. n == v.name) names
    then (if differs (header_of v.name request) v.value then false else rest)
    else rest

-- `HeadersGuard.canActivate`
unfoldable pub headers_can_activate :
    List Header → Option (List ℕ) → List Header → Result HeaderFault Bool
headers_can_activate validators none request = err bad_request
headers_can_activate validators (some names) request =
    if all_present names request
    then (if all_valid validators names request then ok true else err unauthorized)
    else err bad_request

abbrev pub same_role : Role → Role → Bool
same_role user user = true
same_role user admin = false
same_role admin user = false
same_role admin admin = true

pub data GatewayFault : Type 0 where
  forbidden content_length_missing payload_too_large unsupported_media_type : GatewayFault

-- `RolesGuard.canActivate`
unfoldable pub roles_can_activate : List Role → Option Role → Result GatewayFault Bool
roles_can_activate [] role = ok true
roles_can_activate (r ∷ required) none = err forbidden
roles_can_activate (r ∷ required) (some role) =
    if any (λ x. same_role x role) (r ∷ required) then ok true else err forbidden

-- `UploadFileGuard.canActivate`, with the number that `parseInt` gives, or 0; `multipart` says whether the type has it.
unfoldable pub upload_can_activate : ℕ → ℕ → Bool → Result GatewayFault Bool
upload_can_activate required_size content_length multipart =
    if content_length == 0
    then err content_length_missing
    else if ltb (required_size * 1024 * 1024) content_length
    then err payload_too_large
    else if multipart
    then ok true
    else err unsupported_media_type
