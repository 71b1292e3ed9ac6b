-- ===== src/Guards/Tests.antt =====
-- The guards on a few requests.
use nestjs_homework.Base.{ℕ, true, none, some, List, [], ◌∷◌, ◌≡◌, ◌↔◌, refl, All, codes}
use nestjs_homework.Base.Result.{ok, err}
use nestjs_homework.Contracts.{user, admin}
use nestjs_homework.Grpc.{unauthenticated}
use nestjs_homework.Guards.{
  Header, metadata_of, grpc_can_activate, all_present, all_valid, headers_can_activate,
  unauthorized, roles_can_activate, forbidden, upload_can_activate, payload_too_large,
}
use nestjs_homework.Guards.Headers.{IsPresent, IsValid, headers_can_activate_iff}

-- Header 2 carries the access token of the gateway.
abbrev validators : List Header
validators = record { name = 2; value = codes "secret" } ∷ []

abbrev names : List ℕ
names = 1 ∷ 2 ∷ []

abbrev request : List Header
request = record { name = 1; value = codes "id" } ∷ record { name = 2; value = codes "secret" } ∷ []

abbrev forged : List Header
forged = record { name = 1; value = codes "id" } ∷ record { name = 2; value = codes "guess" } ∷ []

headers_can_activate_iff_example :
    (headers_can_activate validators (some names) request ≡ ok true)
    ↔ (All (IsPresent request) names × All (IsValid names request) validators)
headers_can_activate_iff_example = headers_can_activate_iff validators names request

forged_headers : headers_can_activate validators (some names) forged ≡ err unauthorized
unfolding headers_can_activate all_present all_valid
forged_headers = refl

no_token : grpc_can_activate (some (codes "a" ∷ [])) (metadata_of none) ≡ err unauthenticated
unfolding grpc_can_activate metadata_of
no_token = refl

listed_token :
    grpc_can_activate (some (codes "a" ∷ codes "b" ∷ [])) (metadata_of (some (codes "b"))) ≡ ok true
unfolding grpc_can_activate metadata_of
listed_token = refl

not_an_admin : roles_can_activate (admin ∷ []) (some user) ≡ err forbidden
unfolding roles_can_activate
not_an_admin = refl

too_large : upload_can_activate 5 5242881 true ≡ err payload_too_large
unfolding upload_can_activate
too_large = refl
