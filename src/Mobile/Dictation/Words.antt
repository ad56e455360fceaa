-- ===== src/Mobile/Dictation/Words.antt =====
-- The words of a text, for the body of a note in apps/mobile/src/pages/NotePage.tsx.
use Prim.Native.Char.{Char, code}
use Prim.Native.String
use text.Mathlib.TextEquality.{eq_iff}
use text.Mathlib.TextLemmas.{nil-append, cons-append, cons-ne-nil}
use omnia_note.Prelude.{
  String, ◌≡◌, refl, sym, ap, ◌∙◌, Bool, true, false, not, ◌||◌, List, [], ◌∷◌, ◌++◌, inl, inr,
  arith, Bool-cases, str_eq, is_space, prepend, if◌then◌else◌,
}
use omnia_note.Mobile.NotePage.{ends_with_newline}

-- Nothing, or text that begins with other than a space.
abbrev begins_bare : String → Bool
begins_bare String.[] = true
begins_bare (String.◌∷◌ ch s) = not (is_space (code ch))

-- The words of a text, which spaces and line breaks separate.
unfoldable pub words : String → List String
words String.[] = []
words (String.◌∷◌ ch s) =
    let rest = words s in
    if is_space (code ch)
    then rest
    else if begins_bare s
    then prepend ch rest
    else String.◌∷◌ ch "" ∷ rest

pub append-none : (xs : List String) → xs ++ [] ≡ xs
append-none [] = refl
append-none (x ∷ xs) = ap (λ (l : List String). x ∷ l) (append-none xs)

pub append-append : (xs ys zs : List String) → (xs ++ ys) ++ zs ≡ xs ++ (ys ++ zs)
append-append [] ys zs = refl
append-append (x ∷ xs) ys zs = ap (λ (l : List String). x ∷ l) (append-append xs ys zs)

pub words-empty : words "" ≡ []
unfolding words
words-empty = refl

pub words-space :
    (ch : Char) (s : String) → is_space (code ch) ≡ true → words (String.◌∷◌ ch s) ≡ words s
unfolding words
words-space ch s space = rw space refl

pub words-single :
    (ch : Char) → is_space (code ch) ≡ false → words (String.◌∷◌ ch "") ≡ String.◌∷◌ ch "" ∷ []
unfolding words
words-single ch other = rw other refl

words-joined :
    (ch c : Char) (s : String)
    → is_space (code ch) ≡ false
    → is_space (code c) ≡ false
    → words (String.◌∷◌ ch (String.◌∷◌ c s)) ≡ prepend ch (words (String.◌∷◌ c s))
unfolding words
words-joined ch c s other same = rw (other, same) refl

pub words-apart :
    (ch c : Char) (s : String)
    → is_space (code ch) ≡ false
    → is_space (code c) ≡ true
    → words (String.◌∷◌ ch (String.◌∷◌ c s)) ≡ String.◌∷◌ ch "" ∷ words (String.◌∷◌ c s)
unfolding words
words-apart ch c s other space = rw (other, space) refl

-- A word does not go on from the end of the first text into the second.
abbrev pub opens : String → Bool
opens String.[] = true
opens (String.◌∷◌ ch s) = is_space (code ch)

abbrev pub parts : String → String → Bool
parts String.[] u = true
parts (String.◌∷◌ ch String.[]) u = is_space (code ch) || opens u
parts (String.◌∷◌ ch (String.◌∷◌ c s)) u = parts (String.◌∷◌ c s) u

pub empty_lem : (s : String) → str_eq s "" ≡ true → s ≡ ""
empty_lem s h = (eq_iff s "").0 h

not_empty_lem : (ch : Char) (s : String) → str_eq (String.◌∷◌ ch s) "" ≡ false
not_empty_lem ch s = elim (Bool-cases (str_eq (String.◌∷◌ ch s) "")) [
  | inr other ↦ other
  | inl same ↦ absurd (cons-ne-nil ch s (empty_lem (String.◌∷◌ ch s) same))
]

-- The words of a text that begins bare are not none, and the first one takes a character in front of it.
prepend-append :
    (ch c : Char) (xs ys : List String)
    → prepend ch (prepend c xs ++ ys) ≡ prepend ch (prepend c xs) ++ ys
prepend-append ch c [] ys = refl
prepend-append ch c (x ∷ xs) ys = refl

prepend-words :
    (ch c : Char) (s : String) (ys : List String)
    → is_space (code c) ≡ false
    → prepend ch (words (String.◌∷◌ c s) ++ ys) ≡ prepend ch (words (String.◌∷◌ c s)) ++ ys
unfolding words
prepend-words ch c s ys other = elim (Bool-cases (begins_bare s)) [
  | inl bare ↦ rw (other, bare) (prepend-append ch c (words s) ys)
  | inr apart ↦ rw (other, apart) refl
]

words-char :
    (ch : Char) (u : String)
    → parts (String.◌∷◌ ch "") u ≡ true
    → words (String.◌∷◌ ch u) ≡ words (String.◌∷◌ ch "") ++ words u
words-char ch String.[] h = unfold words in sym (append-none (words (String.◌∷◌ ch "")))
words-char ch (String.◌∷◌ c u) h = elim (Bool-cases (is_space (code ch))) [
  | inl space ↦
      words-space ch (String.◌∷◌ c u) space
      ∙ ap (λ l. l ++ words (String.◌∷◌ c u)) (sym (words-space ch "" space ∙ words-empty))
  | inr other ↦
      words-apart ch c u other (ground arith)
      ∙ ap (λ l. l ++ words (String.◌∷◌ c u)) (sym (words-single ch other))
]

-- One character in front of two texts.
pub words-char-append :
    (ch c : Char) (s r : String) (ys : List String)
    → words (String.◌∷◌ c r) ≡ words (String.◌∷◌ c s) ++ ys
    → words (String.◌∷◌ ch (String.◌∷◌ c r)) ≡ words (String.◌∷◌ ch (String.◌∷◌ c s)) ++ ys
words-char-append ch c s r ys later = elim (Bool-cases (is_space (code ch))) [
  | inl space ↦
      words-space ch (String.◌∷◌ c r) space
      ∙ later
      ∙ ap (λ l. l ++ ys) (sym (words-space ch (String.◌∷◌ c s) space))
  | inr other ↦ elim (Bool-cases (is_space (code c))) [
    | inl space ↦
        words-apart ch c r other space
        ∙ ap (λ l. String.◌∷◌ ch "" ∷ l) later
        ∙ ap (λ l. l ++ ys) (sym (words-apart ch c s other space))
    | inr same ↦
        words-joined ch c r other same
        ∙ ap (prepend ch) later
        ∙ prepend-words ch c s ys same
        ∙ ap (λ l. l ++ ys) (sym (words-joined ch c s other same))
  ]
]

pub words-append : (s u : String) → parts s u ≡ true → words (String.◌++◌ s u) ≡ words s ++ words u
words-append String.[] u h = unfold words in rw nil-append refl
words-append (String.◌∷◌ ch String.[]) u h =
    ap words (cons-append ch "" u ∙ ap (λ x. String.◌∷◌ ch x) (nil-append u)) ∙ words-char ch u h
words-append (String.◌∷◌ ch (String.◌∷◌ c s)) u h =
    let inner = cons-append c s u in
    ap words (cons-append ch (String.◌∷◌ c s) u ∙ ap (λ x. String.◌∷◌ ch x) inner)
    ∙ words-char-append ch c s (String.◌++◌ s u) (words u)
        (sym (ap words inner) ∙ words-append (String.◌∷◌ c s) u h)

pub parts-opens : (s u : String) → opens u ≡ true → parts s u ≡ true
parts-opens String.[] u h = refl
parts-opens (String.◌∷◌ ch String.[]) u h = ground arith
parts-opens (String.◌∷◌ ch (String.◌∷◌ c s)) u h = parts-opens (String.◌∷◌ c s) u h

pub parts-newline : (s u : String) → ends_with_newline s ≡ true → parts s u ≡ true
parts-newline String.[] u h = refl
parts-newline (String.◌∷◌ ch String.[]) u h = ground arith
parts-newline (String.◌∷◌ ch (String.◌∷◌ c s)) u h =
    parts-newline (String.◌∷◌ c s) u (ground (arith, not_empty_lem c s, h))
