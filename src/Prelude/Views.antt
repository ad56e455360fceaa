-- ===== src/Prelude/Views.antt =====
-- The rows of a table that pass a test, after a change of a row that does not; and what holds of all
-- rows of a list.
use mathlib.Core.Path.{◌≡◌, refl}
use mathlib.Core.Bool.{Bool, true, false}
use mathlib.Core.Option.{none, some}
use mathlib.Core.List.{List, [], ◌∷◌}
use native.Mathlib.Omega.{arith}
use mathlib.Core.Path.{subst}
use mathlib.Core.Logic.{inl, inr}
use omnia_note.Prelude.Tests.{Bool-cases}
use omnia_note.Prelude.Tables.{
  find_first, find_first_holds, select, insert, update_first, delete_first, delete_where,
}

module _ {ℓ} {A : Type ℓ} where
  pub select-insert :
      (q : A → Bool) (row : A) (xs : List A)
      → q row ≡ false
      → select q (insert row xs) ≡ select q xs
  unfolding select insert
  select-insert q row [] h = ground arith
  select-insert q row (x ∷ xs) h = ground (arith, select-insert q row xs)

  pub select-update_first :
      (q p : A → Bool) (f : A → A) (xs : List A) (x : A)
      → find_first p xs ≡ some x
      → q x ≡ false
      → q (f x) ≡ false
      → select q (update_first p f xs) ≡ select q xs
  unfolding select find_first update_first
  select-update_first q p f [] x h k l = refl
  select-update_first q p f (y ∷ xs) x h k l = ground (arith, select-update_first q p f xs x)

  pub select-delete_first :
      (q p : A → Bool) (xs : List A) (x : A)
      → find_first p xs ≡ some x
      → q x ≡ false
      → select q (delete_first p xs) ≡ select q xs
  unfolding select find_first delete_first
  select-delete_first q p [] x h k = refl
  select-delete_first q p (y ∷ xs) x h k = ground (arith, select-delete_first q p xs x)

  -- The search for a row by another test, after a change that does not bear on that test.
  pub find_first-update_first :
      (q p : A → Bool) (f : A → A) (xs : List A)
      → ((x : A) → p x ≡ true → q x ≡ false)
      → ((x : A) → p x ≡ true → q (f x) ≡ false)
      → find_first q (update_first p f xs) ≡ find_first q xs
  unfolding find_first update_first
  find_first-update_first q p f [] h k = refl
  find_first-update_first q p f (x ∷ xs) h k =
      ground (arith, h x, k x, find_first-update_first q p f xs h k)

  -- The row that an update changes, found by a test that the update keeps.
  pub find_first-updated :
      (p : A → Bool) (f : A → A) (xs : List A) (x : A)
      → find_first p xs ≡ some x
      → p (f x) ≡ true
      → find_first p (update_first p f xs) ≡ some (f x)
  unfolding find_first update_first
  find_first-updated p f [] x h k = ground arith
  find_first-updated p f (y ∷ xs) x h k = ground (arith, find_first-updated p f xs x)

  -- The same where the update goes by another test that finds the same row.
  pub find_first-updated_via :
      (q p : A → Bool) (f : A → A) (xs : List A) (x : A)
      → find_first q xs ≡ some x
      → find_first p xs ≡ some x
      → q (f x) ≡ true
      → find_first q (update_first p f xs) ≡ some (f x)
  unfolding find_first update_first
  find_first-updated_via q p f [] x h k l = ground arith
  find_first-updated_via q p f (y ∷ xs) x h k l =
      ground (arith, find_first_holds p xs x, find_first-updated_via q p f xs x)

  pub find_first-insert :
      (p : A → Bool) (row : A) (xs : List A)
      → p row ≡ false
      → find_first p (insert row xs) ≡ find_first p xs
  unfolding find_first insert
  find_first-insert p row [] h = ground arith
  find_first-insert p row (x ∷ xs) h = ground (arith, find_first-insert p row xs)

  pub find_first-inserted :
      (p : A → Bool) (row : A) (xs : List A)
      → find_first p xs ≡ none
      → p row ≡ true
      → find_first p (insert row xs) ≡ some row
  unfolding find_first insert
  find_first-inserted p row [] h k = ground arith
  find_first-inserted p row (x ∷ xs) h k = ground (arith, find_first-inserted p row xs)

  -- A row once there is found again after an insertion at the end.
  pub find_first-insert-some :
      (p : A → Bool) (row : A) (xs : List A) (x : A)
      → find_first p xs ≡ some x
      → find_first p (insert row xs) ≡ some x
  unfolding find_first insert
  find_first-insert-some p row [] x h = ground arith
  find_first-insert-some p row (y ∷ xs) x h = ground (arith, find_first-insert-some p row xs x)

  pub find_first-delete_where :
      (p q : A → Bool) (xs : List A)
      → ((x : A) → p x ≡ true → q x ≡ true)
      → find_first p (delete_where q xs) ≡ none
  unfolding find_first delete_where
  find_first-delete_where p q [] h = refl
  find_first-delete_where p q (x ∷ xs) h = ground (arith, h x, find_first-delete_where p q xs h)

  pub find_first-delete_where_ne :
      (p q : A → Bool) (xs : List A)
      → ((x : A) → p x ≡ true → q x ≡ false)
      → find_first p (delete_where q xs) ≡ find_first p xs
  unfolding find_first delete_where
  find_first-delete_where_ne p q [] h = refl
  find_first-delete_where_ne p q (x ∷ xs) h =
      ground (arith, h x, find_first-delete_where_ne p q xs h)

module _ {ℓ κ} {A : Type ℓ} (P : A → Type κ) where
  abbrev pub All : List A → Type κ
  All [] = Unit
  All (x ∷ xs) = P x × All xs

  pub All-select : (p : A → Bool) (xs : List A) → ((x : A) → p x ≡ true → P x) → All (select p xs)
  unfolding select
  All-select p [] h = tt
  All-select p (x ∷ xs) h = elim (Bool-cases (p x)) [
    | inl yes' ↦ rw yes' (h x yes', All-select p xs h)
    | inr no' ↦ rw no' (All-select p xs h)
  ]

  pub All-find : (p : A → Bool) (xs : List A) (x : A) → All xs → find_first p xs ≡ some x → P x
  unfolding find_first
  All-find p [] x h k = ground arith
  All-find p (y ∷ xs) x h k = elim (Bool-cases (p y)) [
    | inl hit ↦ (let e : y ≡ x = ground arith in subst P e h.0)
    | inr miss ↦ All-find p xs x h.1 (ground arith)
  ]
