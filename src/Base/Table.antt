-- ===== src/Base/Table.antt =====
-- Tables with a primary key, as lists of rows in the order of insertion. A test picks the rows of a
-- WHERE clause.
use mathlib.Core.Bool.{Bool, true, false, ◌||◌, not}
use mathlib.Core.List.{List, [], ◌∷◌, ◌++◌}
use mathlib.Core.Option.{Option, none, some}
use mathlib.Core.Path.{◌≡◌, refl, ◌∙◌}
use Prim.Native.Nat.{ℕ}
use native.Mathlib.Omega.{arith}
use workspace_gateway.Base.Lists.{any, keep, length, any-append}
use workspace_gateway.Base.Tests.{if◌then◌else◌}

module _ {R : Type 0} where
  -- INSERT OR IGNORE, where `key` picks the rows with the new row's key.
  abbrev pub insert_or_ignore : (R → Bool) → R → List R → List R
  insert_or_ignore key row rows = if any key rows then rows else rows ++ row ∷ []

  -- DELETE
  abbrev pub delete : (R → Bool) → List R → List R
  delete key rows = keep (λ r. not (key r)) rows

  -- INSERT OR REPLACE
  abbrev pub insert_or_replace : (R → Bool) → R → List R → List R
  insert_or_replace key row rows = delete key rows ++ row ∷ []

  -- The first row that a query returns.
  abbrev pub first : (R → Bool) → List R → Option R
  first test [] = none
  first test (r ∷ rows) = if test r then some r else first test rows

  -- SELECT COUNT(1)
  abbrev pub count_rows : (R → Bool) → List R → ℕ
  count_rows test rows = length (keep test rows)

  pub any_of_same :
      (j k : R → Bool) (row : R) (rows : List R)
      → ((r : R) → k r ≡ true → j r ≡ j row)
      → any k rows ≡ true
      → j row ≡ true
      → any j rows ≡ true
  any_of_same j k row [] h m p = m
  any_of_same j k row (r ∷ rows) h m p = ground (arith, h r, any_of_same j k row rows h)

  -- After an insert or ignore a test finds what it found, and the new row.
  pub any-insert_or_ignore :
      (j k : R → Bool) (row : R) (rows : List R)
      → ((r : R) → k r ≡ true → j r ≡ j row)
      → any j (insert_or_ignore k row rows) ≡ (j row || any j rows)
  any-insert_or_ignore j k row rows h =
      ground (arith, any_of_same j k row rows h, any-append j rows (row ∷ []))

  -- A test that implies the deleted key finds nothing; one that excludes it finds what it found.
  pub any-delete_same :
      (j k : R → Bool) (rows : List R)
      → ((r : R) → j r ≡ true → k r ≡ true)
      → any j (delete k rows) ≡ false
  any-delete_same j k [] h = refl
  any-delete_same j k (r ∷ rows) h = ground (arith, h r, any-delete_same j k rows h)

  pub any-delete_other :
      (j k : R → Bool) (rows : List R)
      → ((r : R) → j r ≡ true → k r ≡ false)
      → any j (delete k rows) ≡ any j rows
  any-delete_other j k [] h = refl
  any-delete_other j k (r ∷ rows) h = ground (arith, h r, any-delete_other j k rows h)

  pub first-delete_other :
      (j k : R → Bool) (rows : List R)
      → ((r : R) → j r ≡ true → k r ≡ false)
      → first j (delete k rows) ≡ first j rows
  first-delete_other j k [] h = refl
  first-delete_other j k (r ∷ rows) h = ground (arith, h r, first-delete_other j k rows h)

  pub first-none : (p : R → Bool) (l : List R) → any p l ≡ false → first p l ≡ none
  first-none p [] n = refl
  first-none p (x ∷ l) n = ground (arith, first-none p l)

  pub first-delete_same :
      (j k : R → Bool) (rows : List R)
      → ((r : R) → j r ≡ true → k r ≡ true)
      → first j (delete k rows) ≡ none
  first-delete_same j k rows h = first-none j (delete k rows) (any-delete_same j k rows h)

  pub first-append :
      (k : R → Bool) (xs ys : List R)
      → first k (xs ++ ys) ≡ (if any k xs then first k xs else first k ys)
  first-append k [] ys = refl
  first-append k (r ∷ xs) ys = ground (arith, first-append k xs ys)

  -- At most one row carries each key.
  pub count_rows-delete : (k : R → Bool) (rows : List R) → count_rows k (delete k rows) ≡ 0
  count_rows-delete k [] = refl
  count_rows-delete k (r ∷ rows) = ground (arith, count_rows-delete k rows)

  -- After an upsert the key finds the new row, and any other key what it found before.
  pub first-replace_same :
      (j k : R → Bool) (row : R) (rows : List R)
      → ((r : R) → j r ≡ true → k r ≡ true)
      → j row ≡ true
      → first j (insert_or_replace k row rows) ≡ some row
  first-replace_same j k row rows h e =
      first-append j (delete k rows) (row ∷ []) ∙ ground (arith, any-delete_same j k rows h)

  pub first-replace_other :
      (j k : R → Bool) (row : R) (rows : List R)
      → ((r : R) → j r ≡ true → k r ≡ false)
      → k row ≡ true
      → first j (insert_or_replace k row rows) ≡ first j rows
  first-replace_other j k row rows h e =
      first-append j (delete k rows) (row ∷ [])
      ∙ ground (arith, first-delete_other j k rows h, h row, first-none j (delete k rows))
