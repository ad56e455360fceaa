-- ===== src/Mobile/Dictation/Appending.antt =====
-- apps/mobile/src/pages/NotePage.tsx: the words of the body of a note when dictated text is appended to it.
use Prim.Native.Char.{Char, code}
use Prim.Native.String
use text.Mathlib.TextLemmas.{nil-append, cons-append, append-nil}
use omnia_note.Prelude.{
  String, ◌≡◌, refl, sym, ap, ◌∙◌, Bool, true, false, not, ◌&&◌, [], ◌∷◌, ◌++◌, inl, inr, arith,
  Bool-cases, str_eq, is_space, trim, trim_start, trim_end,
}
use omnia_note.Mobile.NotePage.{append_dictated_text, ends_with_newline}
use omnia_note.Mobile.Dictation.Words.{
  words, words-empty, words-space, words-single, words-apart, words-char-append, empty_lem,
  words-append, parts, parts-opens, parts-newline, append-none,
}

words-trim_start : (s : String) → words (trim_start s) ≡ words s
unfolding trim_start
words-trim_start String.[] = refl
words-trim_start (String.◌∷◌ ch s) = elim (Bool-cases (is_space (code ch))) [
  | inl space ↦ rw space (words-trim_start s ∙ sym (words-space ch s space))
  | inr other ↦ rw other refl
]

trim_end-blank :
    (ch : Char) (s : String)
    → (is_space (code ch) && str_eq (trim_end s) "") ≡ true
    → trim_end (String.◌∷◌ ch s) ≡ ""
unfolding trim_end
trim_end-blank ch s blank = rw blank refl

trim_end-kept :
    (ch : Char) (s : String)
    → (is_space (code ch) && str_eq (trim_end s) "") ≡ false
    → trim_end (String.◌∷◌ ch s) ≡ String.◌∷◌ ch (trim_end s)
unfolding trim_end
trim_end-kept ch s kept = rw kept refl

-- What is cut off the end has no words.
words-blank : (s : String) → trim_end s ≡ "" → words (trim_end s) ≡ words s → words s ≡ []
words-blank s blank same = sym same ∙ ap words blank ∙ words-empty

words-char-trim_end :
    (ch : Char) (s : String)
    → is_space (code ch) ≡ false
    → words (trim_end s) ≡ words s
    → words (String.◌∷◌ ch (trim_end s)) ≡ words (String.◌∷◌ ch s)
words-char-trim_end ch String.[] other same = unfold trim_end in refl
words-char-trim_end ch (String.◌∷◌ c s) other same =
    elim (Bool-cases (is_space (code c) && str_eq (trim_end s) "")) [
      | inl blank ↦
          let none' = trim_end-blank c s blank in
          let space : is_space (code c) ≡ true = ground arith in
          ap (λ x. words (String.◌∷◌ ch x)) none'
          ∙ words-single ch other
          ∙ ap (λ l. String.◌∷◌ ch "" ∷ l) (sym (words-blank (String.◌∷◌ c s) none' same))
          ∙ sym (words-apart ch c s other space)
      | inr kept ↦
          let begins = trim_end-kept c s kept in
          let same' = sym (ap words begins) ∙ same in
          ap (λ x. words (String.◌∷◌ ch x)) begins
          ∙ words-char-append ch c s (trim_end s) []
              (same' ∙ sym (append-none (words (String.◌∷◌ c s))))
          ∙ append-none (words (String.◌∷◌ ch (String.◌∷◌ c s)))
    ]

both_hold : (a b : Bool) → (a && b) ≡ true → (a ≡ true) × (b ≡ true)
both_hold a b h = (ground arith, ground arith)

words-trim_end-kept :
    (ch : Char) (s : String)
    → words (trim_end s) ≡ words s
    → words (String.◌∷◌ ch (trim_end s)) ≡ words (String.◌∷◌ ch s)
words-trim_end-kept ch s later = elim (Bool-cases (is_space (code ch))) [
  | inl space ↦ words-space ch (trim_end s) space ∙ later ∙ sym (words-space ch s space)
  | inr other ↦ words-char-trim_end ch s other later
]

words-trim_end-char :
    (ch : Char) (s : String)
    → words (trim_end s) ≡ words s
    → words (trim_end (String.◌∷◌ ch s)) ≡ words (String.◌∷◌ ch s)
words-trim_end-char ch s later = elim (Bool-cases (is_space (code ch) && str_eq (trim_end s) "")) [
  | inl blank ↦
      let (space, empty) = both_hold (is_space (code ch)) (str_eq (trim_end s) "") blank in
      ap words (trim_end-blank ch s blank)
      ∙ words-empty
      ∙ sym (words-blank s (empty_lem (trim_end s) empty) later)
      ∙ sym (words-space ch s space)
  | inr kept ↦ ap words (trim_end-kept ch s kept) ∙ words-trim_end-kept ch s later
]

words-trim_end : (s : String) → words (trim_end s) ≡ words s
words-trim_end String.[] = unfold trim_end in refl
words-trim_end (String.◌∷◌ ch s) = words-trim_end-char ch s (words-trim_end s)

words-trim : (s : String) → words (trim s) ≡ words s
unfolding trim
words-trim s = words-trim_end (trim_start s) ∙ words-trim_start s

words-after_space :
    (prev t : String) → words (String.◌++◌ prev (String.◌++◌ " " t)) ≡ words prev ++ words t
words-after_space prev t =
    let one_space : String.◌++◌ " " t ≡ String.◌∷◌ " " t =
      cons-append " " "" t ∙ ap (λ x. String.◌∷◌ " " x) (nil-append t) in
    ap (λ u. words (String.◌++◌ prev u)) one_space
    ∙ words-append prev (String.◌∷◌ " " t) (parts-opens prev (String.◌∷◌ " " t) refl)
    ∙ ap (λ l. words prev ++ l) (words-space " " t refl)

parts_joined :
    (prev u : String)
    → (not (str_eq prev "") && not (ends_with_newline prev)) ≡ false
    → parts prev u ≡ true
parts_joined prev u joined = elim (Bool-cases (ends_with_newline prev)) [
  | inl newline ↦ parts-newline prev u newline
  | inr other ↦
      let nothing : prev ≡ "" = empty_lem prev (ground arith) in ap (λ s. parts s u) nothing
]

-- Appending dictated text adds its words after those of the body, whether or not a space is put between.
pub words-append_dictated_text :
    (text prev : String) → words (append_dictated_text text prev) ≡ words prev ++ words text
unfolding append_dictated_text
words-append_dictated_text text prev =
    let heard = words-trim text in
    let spaced = append-nil (trim text) in
    elim (Bool-cases (str_eq (trim text) "")) [
      | inl blank ↦
          let none' : words text ≡ [] =
            sym heard ∙ ap words (empty_lem (trim text) blank) ∙ words-empty in
          rw (blank, none') (sym (append-none (words prev)))
      | inr told ↦ elim (Bool-cases (not (str_eq prev "") && not (ends_with_newline prev))) [
        | inl apart ↦
            rw (told, apart, spaced)
              (words-after_space prev (trim text) ∙ ap (λ l. words prev ++ l) heard)
        | inr joined ↦
            rw (told, joined, spaced)
              (words-append prev (trim text) (parts_joined prev (trim text) joined)
                ∙ ap (λ l. words prev ++ l) heard)
      ]
    ]
