-- ===== src/Prelude/Tables.antt =====
-- A database table as the list of its rows, and the queries on it. `insert` adds a row at the end.
-- `update_first` and `delete_first` stand for a query by a unique key, which fits one row at most.
use Prim.Native.Nat.{ℕ, ◌+◌, ◌≤◌, ◌<◌}
use mathlib.Core.Path.{◌≡◌, refl}
use mathlib.Core.Bool.{Bool, true}
use mathlib.Core.Option.{Option, none, some}
use mathlib.Core.List.{List, [], ◌∷◌}
use native.Mathlib.Omega.{arith}
use omnia_note.Prelude.Tests.{if◌then◌else◌, indicator}

module _ {ℓ} {A : Type ℓ} where
  -- findUnique, findFirst
  unfoldable pub find_first : (A → Bool) → List A → Option A
  find_first p [] = none
  find_first p (x ∷ xs) = if p x then some x else find_first p xs

  -- count
  unfoldable pub count : (A → Bool) → List A → ℕ
  count p [] = 0
  count p (x ∷ xs) = indicator (p x) + count p xs

  -- findMany
  unfoldable pub select : (A → Bool) → List A → List A
  select p [] = []
  select p (x ∷ xs) = if p x then x ∷ select p xs else select p xs

  -- create
  unfoldable pub insert : A → List A → List A
  insert row [] = row ∷ []
  insert row (x ∷ xs) = x ∷ insert row xs

  -- update
  unfoldable pub update_first : (A → Bool) → (A → A) → List A → List A
  update_first p f [] = []
  update_first p f (x ∷ xs) = if p x then f x ∷ xs else x ∷ update_first p f xs

  -- delete
  unfoldable pub delete_first : (A → Bool) → List A → List A
  delete_first p [] = []
  delete_first p (x ∷ xs) = if p x then xs else x ∷ delete_first p xs

  -- updateMany
  unfoldable pub update_where : (A → Bool) → (A → A) → List A → List A
  update_where p f [] = []
  update_where p f (x ∷ xs) = (if p x then f x else x) ∷ update_where p f xs

  -- deleteMany
  unfoldable pub delete_where : (A → Bool) → List A → List A
  delete_where p [] = []
  delete_where p (x ∷ xs) = if p x then delete_where p xs else x ∷ delete_where p xs

  pub find_first_holds :
      (p : A → Bool) (xs : List A) (x : A) → find_first p xs ≡ some x → p x ≡ true
  unfolding find_first
  find_first_holds p [] x h = ground arith
  find_first_holds p (y ∷ xs) x h = ground (arith, find_first_holds p xs x)

  -- What a search misses passes the test nowhere.
  pub count_of_find_none : (p : A → Bool) (xs : List A) → find_first p xs ≡ none → count p xs ≡ 0
  unfolding find_first count
  count_of_find_none p [] h = refl
  count_of_find_none p (y ∷ xs) h = ground (arith, count_of_find_none p xs)

  pub count_of_find_some :
      (p q : A → Bool) (xs : List A) (x : A)
      → find_first p xs ≡ some x
      → q x ≡ true
      → 0 < count q xs
  unfolding find_first count
  count_of_find_some p q [] x h k = ground arith
  count_of_find_some p q (y ∷ xs) x h k = ground (arith, count_of_find_some p q xs x)

  pub find_none_of_count : (p : A → Bool) (xs : List A) → count p xs ≡ 0 → find_first p xs ≡ none
  unfolding find_first count
  find_none_of_count p [] h = refl
  find_none_of_count p (y ∷ xs) h = ground (arith, find_none_of_count p xs)

  pub count-insert :
      (q : A → Bool) (row : A) (xs : List A)
      → count q (insert row xs) ≡ count q xs + indicator (q row)
  unfolding count insert
  count-insert q row [] = omega arith
  count-insert q row (x ∷ xs) = omega (arith, count-insert q row xs)

  -- One row gives way to its new version.
  pub count-update_first :
      (q p : A → Bool) (f : A → A) (xs : List A) (x : A)
      → find_first p xs ≡ some x
      → count q (update_first p f xs) + indicator (q x) ≡ count q xs + indicator (q (f x))
  unfolding count find_first update_first
  count-update_first q p f [] x h = ground arith
  count-update_first q p f (y ∷ xs) x h = ground (arith, count-update_first q p f xs x)

  pub count-delete_first :
      (q p : A → Bool) (xs : List A) (x : A)
      → find_first p xs ≡ some x
      → count q (delete_first p xs) + indicator (q x) ≡ count q xs
  unfolding count find_first delete_first
  count-delete_first q p [] x h = ground arith
  count-delete_first q p (y ∷ xs) x h = ground (arith, count-delete_first q p xs x)

  pub count_mono :
      (p q : A → Bool) (xs : List A) → ((x : A) → p x ≡ true → q x ≡ true) → count p xs ≤ count q xs
  unfolding count
  count_mono p q [] h = omega arith
  count_mono p q (x ∷ xs) h = ground (arith, count_mono p q xs h, h x)
