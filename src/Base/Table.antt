-- ===== src/Base/Table.antt =====
-- A database table: its rows in the order in which they were inserted. A primary key or another
-- `@unique` column of schema.prisma is a test of conflict between two rows.
use nestjs_homework.Base.Tests.{if◌then◌else◌}
use nestjs_homework.Base.Lists.{find, any, All}
use mathlib.Core.Path.{◌≡◌}
use mathlib.Core.Bool.{Bool, true}
use mathlib.Core.Option.{Option, none, some}
use mathlib.Core.List.{List, [], ◌∷◌, ◌++◌}
use native.Mathlib.Omega.{arith}

module _ {Row : Type 0} where
  -- `create({ data: row })`; `none` is the error of a unique constraint.
  unfoldable pub create : (Row → Row → Bool) → Row → List Row → Option (List Row)
  create conflict row rows = if any (conflict row) rows then none else some (rows ++ row ∷ [])

  -- `update({ where, data })` by a unique column.
  unfoldable pub update_first : (Row → Bool) → (Row → Row) → List Row → List Row
  update_first p f [] = []
  update_first p f (r ∷ rows) = if p r then f r ∷ rows else r ∷ update_first p f rows

  -- `updateMany({ where, data })`
  unfoldable pub update_many : (Row → Bool) → (Row → Row) → List Row → List Row
  update_many p f [] = []
  update_many p f (r ∷ rows) = (if p r then f r else r) ∷ update_many p f rows

  -- An update that keeps the columns that `q` reads does not change what `q` finds, but for the row.
  pub find-update_first :
      (p : Row → Bool) (f : Row → Row) (rows : List Row) (r : Row)
      → find p rows ≡ some r
      → p (f r) ≡ true
      → find p (update_first p f rows) ≡ some (f r)
  unfolding update_first
  find-update_first p f [] r e h = ground arith
  find-update_first p f (x ∷ rows) r e h = ground (arith, find-update_first p f rows r)

  pub All-update_first :
      (P : Row → Type 0) (p : Row → Bool) (f : Row → Row) (rows : List Row) (r : Row)
      → find p rows ≡ some r
      → P (f r)
      → All P rows
      → All P (update_first p f rows)
  unfolding update_first
  All-update_first P p f [] r e h a = tt
  All-update_first P p f (x ∷ rows) r e h a = ground (arith, All-update_first P p f rows r)
