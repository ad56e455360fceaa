-- ===== src/Prelude/Listed.antt =====
-- What holds of all rows of a list: through a filter, and of tables with a primary key.
use Prim.Native.Nat.{ℕ}
use mathlib.Core.Path.{◌≡◌}
use mathlib.Core.Logic.{inl, inr}
use mathlib.Core.Bool.{Bool, true}
use mathlib.Core.Option.{none, some}
use mathlib.Core.List.{List, [], ◌∷◌}
use native.Mathlib.Omega.{arith}
use omnia_note.Prelude.Tests.{◌==◌, Bool-cases}
use omnia_note.Prelude.Tables.{find_first, select}
use omnia_note.Prelude.Keys.{has_key, IsKeyed}
use omnia_note.Prelude.Views.{All}

module _ {ℓ κ} {A : Type ℓ} (P Q : A → Type κ) where
  pub All-map : (xs : List A) → ((x : A) → P x → Q x) → All P xs → All Q xs
  All-map [] f h = tt
  All-map (x ∷ xs) f h = (f x h.0, All-map xs f h.1)

module _ {ℓ κ} {A : Type ℓ} (P : A → Type κ) where
  pub All-selected :
      (p : A → Bool) (xs : List A) → All P xs → All (λ x. P x × (p x ≡ true)) (select p xs)
  unfolding select
  All-selected p [] h = tt
  All-selected p (x ∷ xs) h = elim (Bool-cases (p x)) [
    | inl yes' ↦ rw (yes', All) ((h.0, yes'), All-selected p xs h.1)
    | inr no' ↦ rw no' (All-selected p xs h.1)
  ]

module _ {A : Type 0} (key : A → ℕ) where
  -- Every row is the row of its key.
  pub All-keyed :
      (xs : List A) → IsKeyed key xs → All (λ x. find_first (has_key key (key x)) xs ≡ some x) xs
  unfolding find_first
  All-keyed [] h = tt
  All-keyed (y ∷ ys) h = (
    ground arith,
    All-map (λ x. find_first (has_key key (key x)) ys ≡ some x)
        (λ x. find_first (has_key key (key x)) (y ∷ ys) ≡ some x) ys
        (λ x found. elim (Bool-cases (key y == key x)) [
          | inl same ↦
              let at' : key y ≡ key x = ground arith in
              let gone : find_first (has_key key (key x)) ys ≡ none = rw (← at') h.0 in
              absurd (ground arith)
          | inr other ↦ rw other found
        ])
        (All-keyed ys h.1),
  )
