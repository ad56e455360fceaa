-- ===== src/Prelude/Keys.antt =====
-- Tables whose rows have a primary key.
use Prim.Native.Nat.{ℕ}
use mathlib.Core.Path.{◌≡◌, refl}
use mathlib.Core.Logic.{◌≢◌, inl, inr}
use mathlib.Core.Bool.{Bool, true, false}
use mathlib.Core.Option.{none, some}
use mathlib.Core.List.{List, [], ◌∷◌}
use native.Mathlib.Omega.{arith}
use omnia_note.Prelude.Tests.{◌==◌, Bool-cases}
use omnia_note.Prelude.Tables.{find_first, insert, update_first, delete_first}

module _ {ℓ} {A : Type ℓ} where
  pub find_none-insert :
      (p : A → Bool) (row : A) (xs : List A)
      → find_first p xs ≡ none
      → p row ≡ false
      → find_first p (insert row xs) ≡ none
  unfolding find_first insert
  find_none-insert p row [] h k = ground arith
  find_none-insert p row (x ∷ xs) h k = ground (arith, find_none-insert p row xs)

  pub find_none-delete :
      (p q : A → Bool) (xs : List A)
      → find_first p xs ≡ none
      → find_first p (delete_first q xs) ≡ none
  unfolding find_first delete_first
  find_none-delete p q [] h = refl
  find_none-delete p q (x ∷ xs) h = ground (arith, find_none-delete p q xs)

  pub find_none-update :
      (p q : A → Bool) (f : A → A) (xs : List A)
      → ((x : A) → q x ≡ true → p (f x) ≡ p x)
      → find_first p xs ≡ none
      → find_first p (update_first q f xs) ≡ none
  unfolding find_first update_first
  find_none-update p q f [] same h = refl
  find_none-update p q f (x ∷ xs) same h = ground (arith, same x, find_none-update p q f xs same)

module _ {ℓ} {A : Type ℓ} (key : A → ℕ) where
  abbrev pub has_key : ℕ → A → Bool
  has_key k x = key x == k

  -- No two rows have one key.
  abbrev pub IsKeyed : List A → Type ℓ
  IsKeyed [] = Unit
  IsKeyed (x ∷ xs) = (find_first (has_key (key x)) xs ≡ none) × IsKeyed xs

  hit :
      (p : A → Bool) (xs : List A) (x : A)
      → find_first p xs ≡ some x
      → find_first (has_key (key x)) xs ≢ none
  unfolding find_first
  hit p [] x h = ground arith
  hit p (y ∷ xs) x h = ground (arith, hit p xs x)

  -- The row that any search finds is the row of its key.
  pub find_by_key :
      (p : A → Bool) (xs : List A) (x : A)
      → IsKeyed xs
      → find_first p xs ≡ some x
      → find_first (has_key (key x)) xs ≡ some x
  unfolding find_first
  find_by_key p [] x h k = ground arith
  find_by_key p (y ∷ xs) x h k = ground (arith, find_by_key p xs x h.1, hit p xs x)

  pub IsKeyed-insert :
      (row : A) (xs : List A)
      → find_first (has_key (key row)) xs ≡ none
      → IsKeyed xs
      → IsKeyed (insert row xs)
  unfolding find_first insert
  IsKeyed-insert row [] h k = (refl, tt)
  IsKeyed-insert row (x ∷ xs) h k = (
    find_none-insert (has_key (key x)) row xs k.0 (ground arith),
    IsKeyed-insert row xs (ground arith) k.1,
  )

  IsKeyed-head_update :
      (q : A → Bool) (f : A → A) (x : A) (xs : List A)
      → ((y : A) → q y ≡ true → key (f y) ≡ key y)
      → find_first (has_key (key x)) xs ≡ none
      → find_first (has_key (key x)) (update_first q f xs) ≡ none
  IsKeyed-head_update q f x xs same h =
      find_none-update (has_key (key x)) q f xs (λ y hy. ground (arith, same y hy)) h

  -- An update that keeps the key.
  pub IsKeyed-update :
      (q : A → Bool) (f : A → A) (xs : List A)
      → ((y : A) → q y ≡ true → key (f y) ≡ key y)
      → IsKeyed xs
      → IsKeyed (update_first q f xs)
  unfolding find_first update_first
  IsKeyed-update q f [] same h = tt
  IsKeyed-update q f (x ∷ xs) same h = elim (Bool-cases (q x)) [
    | inl hit ↦ rw hit (rw (same x hit) h.0, h.1)
    | inr miss ↦ rw miss (IsKeyed-head_update q f x xs same h.0, IsKeyed-update q f xs same h.1)
  ]

  pub IsKeyed-delete : (q : A → Bool) (xs : List A) → IsKeyed xs → IsKeyed (delete_first q xs)
  unfolding delete_first
  IsKeyed-delete q [] h = tt
  IsKeyed-delete q (x ∷ xs) h = elim (Bool-cases (q x)) [
    | inl hit ↦ rw hit h.1
    | inr miss ↦ rw miss (find_none-delete (has_key (key x)) q xs h.0, IsKeyed-delete q xs h.1)
  ]

  rows_of_head :
      (k : ℕ) (x : A) (xs : List A)
      → find_first (has_key (key x)) xs ≡ none
      → has_key k x ≡ true
      → find_first (has_key k) xs ≡ none
  rows_of_head k x xs h e = let same : key x ≡ k = ground arith in rw (← same) h

  -- After the row of a key is deleted, there is none of that key.
  pub find_deleted :
      (k : ℕ) (xs : List A)
      → IsKeyed xs
      → find_first (has_key k) (delete_first (has_key k) xs) ≡ none
  unfolding find_first delete_first
  find_deleted k [] h = refl
  find_deleted k (x ∷ xs) h = ground (arith, rows_of_head k x xs h.0, find_deleted k xs h.1)

module _ {ℓ} {A : Type ℓ} where
  -- A weaker test that fails everywhere.
  pub find_none_mono :
      (p q : A → Bool) (xs : List A)
      → ((x : A) → q x ≡ true → p x ≡ true)
      → find_first p xs ≡ none
      → find_first q xs ≡ none
  unfolding find_first
  find_none_mono p q [] h k = refl
  find_none_mono p q (x ∷ xs) h k = ground (arith, h x, find_none_mono p q xs h)
