-- ===== src/Guards/Calls.antt =====
-- Which calls between the services are let through.
use nestjs_homework.Base.{
  Bool, true, false, Option, none, some, List, [], ◌∷◌, ◌++◌, ◌&&◌, ◌≡◌, refl, Text, codes,
  without_first, if◌then◌else◌,
}
use nestjs_homework.Base.Result.{ok, err}
use nestjs_homework.Grpc.{unauthenticated}
use nestjs_homework.Guards.{includes, metadata_of, grpc_can_activate}

-- A token of the service that calls: none where there is none or it is empty.
abbrev pub has_token : Option Text → Bool
has_token none = false
has_token (some []) = false
has_token (some (c ∷ cs)) = true

-- The method has a list, and the token is on it.
abbrev pub is_listed : Option (List Text) → Option Text → Bool
is_listed none token = false
is_listed (some allowed) none = false
is_listed (some allowed) (some token) = includes allowed token

without_first-Bearer :
    (token : Text) → without_first (codes "Bearer ") (codes "Bearer " ++ token) ≡ token
without_first-Bearer token = refl

-- A call of a client is let through if the client has a token and the method's list has that token, and is `UNAUTHENTICATED` else.
pub grpc_can_activate-metadata_of :
    (allowed : Option (List Text)) (token : Option Text)
    → grpc_can_activate allowed (metadata_of token)
      ≡ (if has_token token && is_listed allowed token then ok true else err unauthenticated)
unfolding grpc_can_activate metadata_of
grpc_can_activate-metadata_of none none = refl
grpc_can_activate-metadata_of none (some []) = refl
grpc_can_activate-metadata_of none (some (c ∷ cs)) = refl
grpc_can_activate-metadata_of (some allowed) none = refl
grpc_can_activate-metadata_of (some allowed) (some []) = refl
grpc_can_activate-metadata_of (some allowed) (some (c ∷ cs)) = refl
