-- ===== src/Account.antt =====
-- The accounts of user-service: the table of apps/user-service/prisma/schema.prisma as
-- apps/user-service/src/core/repositories/account.repository.ts reads it. An e-mail address and a
-- user name are numbers, as they are only compared.
use nestjs_homework.Base.{
  [], ◌∷◌, ◌≡◌, arith, ℕ, Bool, false, Option, none, some, List, ◌==◌, ◌||◌, find,
}
use nestjs_homework.Contracts.{Uuid, Time, Role}

pub record Account : Type 0 where
  pub id : Uuid
  pub email : ℕ
  pub username : ℕ
  pub password : ℕ
  pub is_verified : Bool
  pub role : Role
  pub created_at : Time
  pub deleted_at : Option Time

-- A condition of the `OR`; one that is `undefined` is filtered out.
abbrev pub matches : Option ℕ → ℕ → Bool
matches none y = false
matches (some x) y = y == x

-- `findFirst`; an `OR` of no conditions finds nothing.
unfoldable pub find_by : Option Uuid → Option ℕ → Option ℕ → List Account → Option Account
find_by id email username accounts =
    find (λ a. matches id a.id || matches email a.email || matches username a.username) accounts

-- `!account || account.deletedAt`
abbrev pub is_live : Option Account → Bool
is_live none = false
is_live (some a) = elim a.deleted_at [ none ↦ Bool.true | some t ↦ false ]

-- What is found by its id has that id.
pub found_id :
    (id : Uuid) (accounts : List Account) (a : Account)
    → find_by (some id) none none accounts ≡ some a
    → a.id ≡ id
unfolding find_by
found_id id [] a h = cc
found_id id (x ∷ accounts) a h = ground (arith, found_id id accounts a)
