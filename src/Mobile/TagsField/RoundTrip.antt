-- ===== src/Mobile/TagsField/RoundTrip.antt =====
-- apps/mobile/src/pages/NotePage.tsx and ItemDetailPage.tsx: from the field to names, and back.
use Prim.Native.String
use text.Mathlib.TextLemmas.{nil-append, cons-append}
use omnia_note.Prelude.{
  String, ◌≡◌, refl, ap, ◌∙◌, Bool, true, false, not, List, [], ◌∷◌, ◌++◌, map, inl, inr, arith,
  Bool-cases, str_eq, trim, trim_start, trim_end, includes, unique_from, split_commas, join, select,
  All,
}
use omnia_note.Mobile.TagsField.{parse_tags}
use omnia_note.Mobile.TagsField.Names.{
  IsName, no_comma, no_comma-trim, trim_idem, split_commas-NoComma, split_commas-append,
  split_commas-whole, map-trim-split_commas,
}

-- No text stands twice in the list, or in the other one too.
abbrev pub IsDistinct : List String → List String → Type 0
IsDistinct seen [] = Unit
IsDistinct seen (t ∷ ts) = (includes seen t ≡ false) × IsDistinct (t ∷ seen) ts

unique_from-IsDistinct : (seen ts : List String) → IsDistinct seen (unique_from seen ts)
unfolding unique_from
unique_from-IsDistinct seen [] = tt
unique_from-IsDistinct seen (t ∷ ts) = elim (Bool-cases (includes seen t)) [
  | inl old ↦ rw old (unique_from-IsDistinct seen ts)
  | inr new ↦ rw (new, IsDistinct) (new, unique_from-IsDistinct (t ∷ seen) ts)
]

unique_from_same : (seen ts : List String) → IsDistinct seen ts → unique_from seen ts ≡ ts
unfolding unique_from
unique_from_same seen [] h = refl
unique_from_same seen (t ∷ ts) h = rw (h.0, unique_from_same (t ∷ seen) ts h.1) refl

IsDistinct-fewer :
    (seen fewer ts : List String)
    → ((s : String) → includes seen s ≡ false → includes fewer s ≡ false)
    → IsDistinct seen ts
    → IsDistinct fewer ts
unfolding includes
IsDistinct-fewer seen fewer [] sub h = tt
IsDistinct-fewer seen fewer (t ∷ ts) sub h =
    (sub t h.0, IsDistinct-fewer (t ∷ seen) (t ∷ fewer) ts (λ s k. ground (arith, sub s)) h.1)

pub IsDistinct-select :
    (p : String → Bool) (seen ts : List String) → IsDistinct seen ts → IsDistinct seen (select p ts)
unfolding select includes
IsDistinct-select p seen [] h = tt
IsDistinct-select p seen (t ∷ ts) h =
    let rest = IsDistinct-select p (t ∷ seen) ts h.1 in
    elim (Bool-cases (p t)) [
      | inl yes' ↦ rw (yes', IsDistinct) (h.0, rest)
      | inr no' ↦ rw no' (IsDistinct-fewer (t ∷ seen) seen (select p ts) (λ s k. ground arith) rest)
    ]

pub IsDistinct-append :
    (seen ts : List String) (tag : String)
    → includes seen tag ≡ false
    → includes ts tag ≡ false
    → IsDistinct seen ts
    → IsDistinct seen (ts ++ tag ∷ [])
unfolding includes
IsDistinct-append seen [] tag h k d = (h, tt)
IsDistinct-append seen (t ∷ ts) tag h k d =
    (d.0, IsDistinct-append (t ∷ seen) ts tag (ground arith) (ground arith) d.1)

pub select-All {ℓ} :
    (P : String → Type ℓ) (p : String → Bool) (ts : List String) → All P ts → All P (select p ts)
unfolding select
select-All P p [] h = tt
select-All P p (t ∷ ts) h = elim (Bool-cases (p t)) [
  | inl yes' ↦ rw (yes', All) (h.0, select-All P p ts h.1)
  | inr no' ↦ rw no' (select-All P p ts h.1)
]

unique_from-All {ℓ} :
    (P : String → Type ℓ) (seen ts : List String) → All P ts → All P (unique_from seen ts)
unfolding unique_from
unique_from-All P seen [] h = tt
unique_from-All P seen (t ∷ ts) h = elim (Bool-cases (includes seen t)) [
  | inl old ↦ rw old (unique_from-All P seen ts h.1)
  | inr new ↦ rw (new, All) (h.0, unique_from-All P (t ∷ seen) ts h.1)
]

pub append-All {ℓ} :
    (P : String → Type ℓ) (ts : List String) (t : String) → All P ts → P t → All P (ts ++ t ∷ [])
append-All P [] t h k = (k, tt)
append-All P (u ∷ ts) t h k = (h.0, append-All P ts t h.1 k)

abbrev nonempty : String → Bool
nonempty t = not (str_eq t "")

trimmed-IsName :
    (ts : List String)
    → All (λ t. no_comma t ≡ true) ts
    → All IsName (select nonempty (map trim ts))
unfolding select
trimmed-IsName [] h = tt
trimmed-IsName (t ∷ ts) h = elim (Bool-cases (str_eq (trim t) "")) [
  | inl empty ↦ rw empty (trimmed-IsName ts h.1)
  | inr full ↦ rw (full, All) ((no_comma-trim t h.0, trim_idem t, full), trimmed-IsName ts h.1)
]

pub parse_tags-IsName : (text : String) → All IsName (parse_tags text)
unfolding parse_tags
parse_tags-IsName text =
    unique_from-All IsName [] (select nonempty (map trim (split_commas text)))
      (trimmed-IsName (split_commas text) (split_commas-NoComma text))

pub parse_tags-IsDistinct : (text : String) → IsDistinct [] (parse_tags text)
unfolding parse_tags
parse_tags-IsDistinct text =
    unique_from-IsDistinct [] (select nonempty (map trim (split_commas text)))

map-trim-join :
    (t : String) (ts : List String)
    → All IsName (t ∷ ts)
    → map trim (split_commas (join ", " (t ∷ ts))) ≡ t ∷ ts
unfolding join
map-trim-join t [] h = rw (split_commas-whole t h.0.0, h.0.1) refl
map-trim-join t (u ∷ ts) h =
    let rest = join ", " (u ∷ ts) in
    let spaced : String.◌++◌ ", " rest ≡ String.◌∷◌ "," (String.◌∷◌ " " rest) =
      cons-append "," " " rest
      ∙ ap (String.◌∷◌ ",") (cons-append " " "" rest)
      ∙ ap (λ (s : String). String.◌∷◌ "," (String.◌∷◌ " " s)) (nil-append rest) in
    rw
      (spaced, split_commas-append t (String.◌∷◌ " " rest) h.0.0, h.0.1, map-trim-split_commas rest)
      (ap (λ (l : List String). t ∷ l) (map-trim-join u ts h.1))

select_names : (ts : List String) → All IsName ts → select nonempty ts ≡ ts
unfolding select
select_names [] h = refl
select_names (t ∷ ts) h = rw (h.0.2, select_names ts h.1) refl

-- Names that are trimmed, not empty, without a comma and all different come back as they were from the field
-- that shows them.
pub parse_tags-join :
    (ts : List String) → All IsName ts → IsDistinct [] ts → parse_tags (join ", " ts) ≡ ts
unfolding parse_tags
parse_tags-join [] h d =
    unfold join split_commas trim trim_start trim_end select unique_from in refl
parse_tags-join (t ∷ ts) h d =
    rw (map-trim-join t ts h, select_names (t ∷ ts) h) (unique_from_same [] (t ∷ ts) d)
