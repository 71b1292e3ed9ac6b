-- ===== src/Users.antt =====
-- The users of user-service: the tables Account, Profile and Avatar of apps/user-service/prisma/schema.prisma,
-- and what the queries of apps/user-service/src/core/repositories/users.repository.ts select of them. Names and
-- descriptions are numbers, as they are only stored and compared.
pub mod Repository
mod Cursor
mod Distinct
pub mod Order
pub mod Pages
pub mod Cache
mod Key
pub mod Service
pub mod Active
pub mod Coherent
pub mod History
mod Tests
use nestjs_homework.Base.{
  ℕ, Bool, Option, none, some, List, Text, map, find, filter, ◌==◌, is_some, not,
}
use nestjs_homework.Contracts.{Uuid, Time, Role}
use nestjs_homework.Account.{Account}

pub record Profile : Type 0 where
  pub id : Uuid
  pub first_name : ℕ
  pub last_name : ℕ
  pub age : ℕ
  pub description : ℕ
  pub account_id : Uuid

pub record Avatar : Type 0 where
  pub id : Uuid
  pub name : Text
  pub profile_id : Uuid
  pub created_at : Time
  pub deleted_at : Option Time

pub record UserDb : Type 0 where
  pub accounts : List Account
  pub profiles : List Profile
  pub avatars : List Avatar

-- The avatar that a query selects.
pub record AvatarView : Type 0 where
  pub id : Uuid
  pub name : Text

pub record ProfileView : Type 0 where
  pub id : Uuid
  pub first_name : ℕ
  pub last_name : ℕ
  pub age : ℕ
  pub description : ℕ
  pub avatars : List AvatarView

-- What `findBy` selects.
pub record User : Type 0 where
  pub id : Uuid
  pub username : ℕ
  pub email : ℕ
  pub role : Role
  pub created_at : Time
  pub deleted_at : Option Time
  pub profile : Option ProfileView

-- What `findAll` selects.
pub record UserRow : Type 0 where
  pub id : Uuid
  pub username : ℕ
  pub email : ℕ
  pub created_at : Time
  pub profile : Option ProfileView
