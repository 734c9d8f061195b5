-- ===== src/Table.antt =====
-- A table of rows: the shapes of SELECT, UPDATE and DELETE that the store package uses
-- (backend/internal/store), over any type of row.
pub mod Counts
pub mod Ordering
pub mod Rows
pub mod Deletes
use encode_system.Prelude.{ℕ, zero, suc, List, [], ◌∷◌, Bool, Option, none, some, if◌then◌else◌}

module _ {ℓ} {A : Type ℓ} where
  -- SELECT … WHERE p LIMIT 1
  unfoldable pub select_one : (A → Bool) → List A → Option A
  select_one p [] = none
  select_one p (x ∷ xs) = if p x then some x else select_one p xs

  -- SELECT … WHERE p
  unfoldable pub select_where : (A → Bool) → List A → List A
  select_where p [] = []
  select_where p (x ∷ xs) = let rest = select_where p xs in if p x then x ∷ rest else rest

  -- SELECT COUNT(*) … WHERE p, and the rows affected by an UPDATE or DELETE … WHERE p
  unfoldable pub count_where : (A → Bool) → List A → ℕ
  count_where p [] = 0
  count_where p (x ∷ xs) = let rest = count_where p xs in if p x then suc rest else rest

  -- UPDATE … SET f WHERE p
  unfoldable pub update_where : (A → Bool) → (A → A) → List A → List A
  update_where p f [] = []
  update_where p f (x ∷ xs) = (if p x then f x else x) ∷ update_where p f xs

  -- DELETE … WHERE p
  unfoldable pub delete_where : (A → Bool) → List A → List A
  delete_where p [] = []
  delete_where p (x ∷ xs) = let rest = delete_where p xs in if p x then rest else x ∷ rest

  abbrev pub choose : (A → A → Bool) → A → Option A → A
  choose lt x none = x
  choose lt x (some y) = if lt y x then y else x

  -- SELECT … ORDER BY lt LIMIT 1: the first row in the order
  unfoldable pub first_by : (A → A → Bool) → List A → Option A
  first_by lt [] = none
  first_by lt (x ∷ xs) = some (choose lt x (first_by lt xs))
