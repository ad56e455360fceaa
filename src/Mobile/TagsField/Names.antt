-- ===== src/Mobile/TagsField/Names.antt =====
-- Names of tags that the field can hold: trimmed, not empty and without a comma.
use Prim.Native.Char.{Char, code}
use Prim.Native.String
use text.Mathlib.TextLemmas.{nil-append, cons-append}
use omnia_note.Prelude.{
  String, ◌≡◌, refl, ap, ◌∙◌, Bool, true, false, not, ◌&&◌, ◌==◌, List, [], ◌∷◌, map, inl, inr,
  arith, Bool-cases, str_eq, is_space, trim, trim_start, trim_end, prepend, split_commas, All,
}

abbrev pub no_comma : String → Bool
no_comma String.[] = true
no_comma (String.◌∷◌ ch s) = not (code ch == b',') && no_comma s

abbrev pub IsName : String → Type 0
IsName t = (no_comma t ≡ true) × (trim t ≡ t) × (str_eq t "" ≡ false)

abbrev pub starts_bare : String → Bool
starts_bare String.[] = true
starts_bare (String.◌∷◌ ch s) = not (is_space (code ch))

starts_bare-trim_start : (s : String) → starts_bare (trim_start s) ≡ true
unfolding trim_start
starts_bare-trim_start String.[] = refl
starts_bare-trim_start (String.◌∷◌ ch s) = elim (Bool-cases (is_space (code ch))) [
  | inl space ↦ rw space (starts_bare-trim_start s)
  | inr other ↦ rw (other, starts_bare) (rw other refl)
]

trim_start-bare : (s : String) → starts_bare s ≡ true → trim_start s ≡ s
unfolding trim_start
trim_start-bare String.[] h = refl
trim_start-bare (String.◌∷◌ ch s) h =
    let other : is_space (code ch) ≡ false = ground arith in rw other refl

starts_bare-trim_end : (s : String) → starts_bare s ≡ true → starts_bare (trim_end s) ≡ true
unfolding trim_end
starts_bare-trim_end String.[] h = refl
starts_bare-trim_end (String.◌∷◌ ch s) h =
    let other : is_space (code ch) ≡ false = ground arith in rw other (rw (other, starts_bare) refl)

trim_end_idem : (s : String) → trim_end (trim_end s) ≡ trim_end s
unfolding trim_end
trim_end_idem String.[] = refl
trim_end_idem (String.◌∷◌ ch s) = elim (Bool-cases (is_space (code ch) && str_eq (trim_end s) "")) [
  | inl blank ↦ rw blank refl
  | inr kept ↦ rw (kept, trim_end) (rw (trim_end_idem s) (rw kept refl))
]

pub trim_idem : (s : String) → trim (trim s) ≡ trim s
unfolding trim
trim_idem s =
    ap trim_end (
      trim_start-bare (trim_end (trim_start s))
        (starts_bare-trim_end (trim_start s) (starts_bare-trim_start s)))
    ∙ trim_end_idem (trim_start s)

no_comma-trim_start : (s : String) → no_comma s ≡ true → no_comma (trim_start s) ≡ true
unfolding trim_start
no_comma-trim_start String.[] h = refl
no_comma-trim_start (String.◌∷◌ ch s) h = elim (Bool-cases (is_space (code ch))) [
  | inl space ↦ rw space (no_comma-trim_start s (ground arith))
  | inr other ↦ rw other h
]

no_comma-trim_end : (s : String) → no_comma s ≡ true → no_comma (trim_end s) ≡ true
unfolding trim_end
no_comma-trim_end String.[] h = refl
no_comma-trim_end (String.◌∷◌ ch s) h =
    elim (Bool-cases (is_space (code ch) && str_eq (trim_end s) "")) [
      | inl blank ↦ rw blank refl
      | inr kept ↦ rw (kept, no_comma) (ground (arith, no_comma-trim_end s (ground arith)))
    ]

pub no_comma-trim : (s : String) → no_comma s ≡ true → no_comma (trim s) ≡ true
unfolding trim
no_comma-trim s h = no_comma-trim_end (trim_start s) (no_comma-trim_start s h)

abbrev NoComma : String → Type 0
NoComma s = no_comma s ≡ true

prepend-NoComma :
    (ch : Char) (ts : List String)
    → (code ch == b',') ≡ false
    → All NoComma ts
    → All NoComma (prepend ch ts)
prepend-NoComma ch [] other h = (rw other refl, tt)
prepend-NoComma ch (t ∷ ts) other h = (rw other h.0, h.1)

pub split_commas-NoComma : (s : String) → All NoComma (split_commas s)
unfolding split_commas
split_commas-NoComma String.[] = (refl, tt)
split_commas-NoComma (String.◌∷◌ ch s) = elim (Bool-cases (code ch == b',')) [
  | inl comma ↦ rw (comma, All) (refl, split_commas-NoComma s)
  | inr other ↦ rw other (prepend-NoComma ch (split_commas s) other (split_commas-NoComma s))
]

-- The part before the first comma.
pub split_commas-append :
    (t s : String)
    → no_comma t ≡ true
    → split_commas (String.◌++◌ t (String.◌∷◌ "," s)) ≡ t ∷ split_commas s
unfolding split_commas
split_commas-append String.[] s h = rw nil-append refl
split_commas-append (String.◌∷◌ ch t) s h =
    let other : (code ch == b',') ≡ false = ground arith in
    rw (cons-append, other, split_commas-append t s (ground arith)) refl

pub split_commas-whole : (t : String) → no_comma t ≡ true → split_commas t ≡ t ∷ []
unfolding split_commas
split_commas-whole String.[] h = refl
split_commas-whole (String.◌∷◌ ch t) h =
    let other : (code ch == b',') ≡ false = ground arith in
    rw (other, split_commas-whole t (ground arith)) refl

map-trim-prepend :
    (ts : List String) (t : String) → map trim (prepend " " (t ∷ ts)) ≡ map trim (t ∷ ts)
unfolding trim trim_start
map-trim-prepend ts t = refl

split_commas_some : (s : String) → (t : String) × (ts : List String) × (split_commas s ≡ t ∷ ts)
unfolding split_commas
split_commas_some String.[] = ("", [], refl)
split_commas_some (String.◌∷◌ ch s) = elim (Bool-cases (code ch == b',')) [
  | inl comma ↦ ("", split_commas s, rw comma refl)
  | inr other ↦ let (t, ts, e) = split_commas_some s in (String.◌∷◌ ch t, ts, rw (other, e) refl)
]

-- A space after the comma is trimmed away.
pub map-trim-split_commas :
    (s : String) → map trim (split_commas (String.◌∷◌ " " s)) ≡ map trim (split_commas s)
map-trim-split_commas s =
    let (t, ts, e) = split_commas_some s in unfold split_commas in rw e (map-trim-prepend ts t)
