-- ===== src/Admin/Cursor.antt =====
-- The pages of apps/api/src/admin/admin.service.ts for rows in any order: a page and the cursor to the next.
use omnia_note.Prelude.{
  ℕ, zero, suc, ◌<◌, ◌≡◌, refl, ap, ◌∙◌, Bool, true, false, Option, none, some, List, [], ◌∷◌, ◌++◌,
  arith, ◌==◌, is_some, leb, inl, inr, Bool-cases, find_first, has_key, IsKeyed,
}
use mathlib.Core.Option
use omnia_note.World.{Uuid}
use omnia_note.Admin.Service.{
  length, take, rest_after, from_cursor, last_key, next_cursor, latest_first, insert_latest,
}

module _ {A : Type 0} (key : A → Uuid) where
  abbrev pub drop : ℕ → List A → List A
  drop zero xs = xs
  drop (suc n) [] = []
  drop (suc n) (x ∷ xs) = drop n xs

  abbrev has : Uuid → List A → Bool
  has k xs = is_some (find_first (has_key key k) xs)

  take-drop : (n : ℕ) (xs : List A) → take n xs ++ drop n xs ≡ xs
  take-drop zero xs = refl
  take-drop (suc n) [] = refl
  take-drop (suc n) (x ∷ xs) = ap (λ (l : List A). x ∷ l) (take-drop n xs)

  take_short : (n : ℕ) (xs : List A) → (length (take n xs) == n) ≡ false → take n xs ≡ xs
  unfolding length
  take_short zero xs h = absurd (ground arith)
  take_short (suc n) [] h = refl
  take_short (suc n) (x ∷ xs) h = ap (λ (l : List A). x ∷ l) (take_short n xs (ground arith))

  length-drop :
      (n : ℕ) (xs : List A)
      → (length (take (suc n) xs) == suc n) ≡ true
      → length (drop (suc n) xs) < length xs
  unfolding length
  length-drop n [] h = absurd (ground arith)
  length-drop zero (x ∷ xs) h = omega arith
  length-drop (suc n) (x ∷ xs) h = omega (arith, length-drop n xs (ground arith))

  has-last_key :
      (n : ℕ) (xs : List A) (k : Uuid) → last_key key (take n xs) ≡ some k → has k xs ≡ true
  unfolding find_first
  has-last_key zero xs k h = absurd (ground arith)
  has-last_key (suc n) [] k h = absurd (ground arith)
  has-last_key (suc zero) (x ∷ xs) k h = ground arith
  has-last_key (suc (suc n)) (x ∷ []) k h = ground arith
  has-last_key (suc (suc n)) (x ∷ y ∷ ys) k h = ground (arith, has-last_key (suc n) (y ∷ ys) k h)

  last_key-some :
      (n : ℕ) (xs : List A)
      → (length (take (suc n) xs) == suc n) ≡ true
      → (k : Uuid) × (last_key key (take (suc n) xs) ≡ some k)
  unfolding length
  last_key-some n [] h = absurd (ground arith)
  last_key-some zero (x ∷ xs) h = (key x, refl)
  last_key-some (suc n) (x ∷ []) h = absurd (ground arith)
  last_key-some (suc n) (x ∷ y ∷ ys) h = last_key-some n (y ∷ ys) (ground arith)

  apart :
      (x : A) (xs : List A) (k : Uuid)
      → find_first (has_key key (key x)) xs ≡ none
      → has k xs ≡ true
      → (key x == k) ≡ false
  apart x xs k fresh present = elim (Bool-cases (key x == k)) [
    | inr other ↦ other
    | inl same ↦
        let at' : key x ≡ k = ground arith in
        absurd (ground (arith, ap (λ (i : Uuid). find_first (has_key key i) xs) at'))
  ]

  -- The rest after the last row of a full page.
  rest_after-last_key :
      (n : ℕ) (xs : List A) (k : Uuid)
      → IsKeyed key xs
      → last_key key (take (suc n) xs) ≡ some k
      → (length (take (suc n) xs) == suc n) ≡ true
      → rest_after key k xs ≡ drop (suc n) xs
  unfolding length
  rest_after-last_key n [] k keyed h full = absurd (ground arith)
  rest_after-last_key zero (x ∷ xs) k keyed h full = ground arith
  rest_after-last_key (suc n) (x ∷ []) k keyed h full = absurd (ground arith)
  rest_after-last_key (suc n) (x ∷ y ∷ ys) k keyed h full =
      let later : (key x == k) ≡ false =
        apart x (y ∷ ys) k keyed.0 (has-last_key (suc n) (y ∷ ys) k h) in
      rw later (rest_after-last_key n (y ∷ ys) k keyed.1 h (ground arith))

  has-rest_after :
      (k0 k : Uuid) (xs : List A) → has k (rest_after key k0 xs) ≡ true → has k xs ≡ true
  unfolding find_first
  has-rest_after k0 k [] h = h
  has-rest_after k0 k (x ∷ xs) h = ground (arith, has-rest_after k0 k xs)

  -- A key that stands in the rest of a list is found there first.
  rest_after-rest :
      (k0 k : Uuid) (l : List A)
      → IsKeyed key l
      → has k (rest_after key k0 l) ≡ true
      → rest_after key k l ≡ rest_after key k (rest_after key k0 l)
  rest_after-rest k0 k [] keyed h = refl
  rest_after-rest k0 k (x ∷ xs) keyed h = elim (Bool-cases (key x == k0)) [
    | inl hit ↦
        (let h' : has k xs ≡ true = ground arith in
          let other = apart x xs k keyed.0 h' in rw (hit, other) refl)
    | inr miss ↦
        (let h' : has k (rest_after key k0 xs) ≡ true = ground arith in
          let other = apart x xs k keyed.0 (has-rest_after k0 k xs h') in
          rw (miss, other) (rest_after-rest k0 k xs keyed.1 h'))
  ]

  from_cursor-next :
      (cursor : Option Uuid) (k : Uuid) (l : List A)
      → IsKeyed key l
      → has k (from_cursor key cursor l) ≡ true
      → rest_after key k l ≡ rest_after key k (from_cursor key cursor l)
  from_cursor-next none k l keyed h = refl
  from_cursor-next (some k0) k l keyed h = rest_after-rest k0 k l keyed h

  IsKeyed-rest_after : (k : Uuid) (l : List A) → IsKeyed key l → IsKeyed key (rest_after key k l)
  IsKeyed-rest_after k [] h = h
  IsKeyed-rest_after k (x ∷ xs) h = elim (Bool-cases (key x == k)) [
    | inl hit ↦ rw hit h.1
    | inr miss ↦ rw miss (IsKeyed-rest_after k xs h.1)
  ]

  IsKeyed-from_cursor :
      (cursor : Option Uuid) (l : List A) → IsKeyed key l → IsKeyed key (from_cursor key cursor l)
  IsKeyed-from_cursor none l h = h
  IsKeyed-from_cursor (some k) l h = IsKeyed-rest_after k l h

  -- From any cursor, the pages that follow, joined; `none` if the fuel runs out before the last page.
  unfoldable pub walk : (fuel limit : ℕ) → Option Uuid → List A → Option (List A)
  walk zero limit cursor l = none
  walk (suc fuel) limit cursor l =
      let rows = take limit (from_cursor key cursor l) in
      elim (next_cursor key limit rows) [
        | none ↦ some rows
        | some k ↦ Option.map (λ ys. rows ++ ys) (walk fuel limit (some k) l)
      ]

  pub walk_all :
      (fuel limit : ℕ) (cursor : Option Uuid) (l : List A)
      → IsKeyed key l
      → length (from_cursor key cursor l) < fuel
      → walk fuel (suc limit) cursor l ≡ some (from_cursor key cursor l)
  unfolding walk
  walk_all zero limit cursor l keyed enough = absurd (ground arith)
  walk_all (suc fuel) limit cursor l keyed enough =
      let xs = from_cursor key cursor l in
      let rows = take (suc limit) xs in
      elim (Bool-cases (length rows == suc limit)) [
        | inr short ↦ rw (walk, short) (ap some (take_short (suc limit) xs short))
        | inl full ↦
            let (k, e) = last_key-some limit xs full in
            let present = has-last_key (suc limit) xs k e in
            let rest : rest_after key k l ≡ drop (suc limit) xs =
              from_cursor-next cursor k l keyed present
              ∙ rest_after-last_key limit xs k (IsKeyed-from_cursor cursor l keyed) e full in
            let fewer = length-drop limit xs full in
            let later : walk fuel (suc limit) (some k) l ≡ some (drop (suc limit) xs) =
              walk_all fuel limit (some k) l keyed (omega (arith, ap length rest, fewer))
              ∙ ap some rest in
            rw (walk, full, e)
              (ap (Option.map (λ (ys : List A). rows ++ ys)) later
                ∙ ap some (take-drop (suc limit) xs))
      ]

  find_none-insert_latest :
      (time : A → ℕ) (p : A → Bool) (x : A) (ys : List A)
      → find_first p ys ≡ none
      → p x ≡ false
      → find_first p (insert_latest time x ys) ≡ none
  unfolding find_first
  find_none-insert_latest time p x [] h k = ground arith
  find_none-insert_latest time p x (y ∷ ys) h k =
      ground (arith, find_none-insert_latest time p x ys)

  find_none-latest_first :
      (time : A → ℕ) (p : A → Bool) (xs : List A)
      → find_first p xs ≡ none
      → find_first p (latest_first time xs) ≡ none
  unfolding find_first
  find_none-latest_first time p [] h = refl
  find_none-latest_first time p (x ∷ xs) h =
      find_none-insert_latest time p x (latest_first time xs)
        (find_none-latest_first time p xs (ground arith)) (ground arith)

  IsKeyed-insert_latest :
      (time : A → ℕ) (x : A) (ys : List A)
      → find_first (has_key key (key x)) ys ≡ none
      → IsKeyed key ys
      → IsKeyed key (insert_latest time x ys)
  unfolding find_first
  IsKeyed-insert_latest time x [] fresh keyed = (refl, tt)
  IsKeyed-insert_latest time x (y ∷ ys) fresh keyed = elim (Bool-cases (leb (time y) (time x))) [
    | inl first ↦ rw first (fresh, keyed)
    | inr later ↦ rw later (
      find_none-insert_latest time (has_key key (key y)) x ys keyed.0 (ground arith),
      IsKeyed-insert_latest time x ys (ground arith) keyed.1,
    )
  ]

  pub IsKeyed-latest_first :
      (time : A → ℕ) (xs : List A) → IsKeyed key xs → IsKeyed key (latest_first time xs)
  IsKeyed-latest_first time [] h = tt
  IsKeyed-latest_first time (x ∷ xs) h =
      IsKeyed-insert_latest time x (latest_first time xs)
        (find_none-latest_first time (has_key key (key x)) xs h.0)
        (IsKeyed-latest_first time xs h.1)

module _ {A : Type 0} (time : A → ℕ) where
  length-insert_latest : (x : A) (ys : List A) → length (insert_latest time x ys) ≡ suc (length ys)
  unfolding length
  length-insert_latest x [] = refl
  length-insert_latest x (y ∷ ys) = ground (arith, length-insert_latest x ys)

  pub length-latest_first : (xs : List A) → length (latest_first time xs) ≡ length xs
  unfolding length
  length-latest_first [] = refl
  length-latest_first (x ∷ xs) =
      length-insert_latest x (latest_first time xs) ∙ ap suc (length-latest_first xs)
