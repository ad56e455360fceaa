-- ===== src/Notifications/Escaping.antt =====
-- apps/api/src/notifications/notification.service.ts: what escapeHtml makes of a text.
use Prim.Native.Char.{Char, code}
use Prim.Native.String.{[], ◌∷◌, ◌++◌}
use text.Mathlib.TextLemmas.{nil-append, cons-append, append_assoc}
use omnia_note.Prelude.{
  ℕ, String, ◌≡◌, refl, sym, ap, ◌∙◌, Bool, true, false, not, ◌&&◌, ◌==◌, inl, inr, arith,
  Bool-cases, replace_all, List, if◌then◌else◌,
}
use omnia_note.Notifications.{escape_html}

-- The entity of a character, or the character.
abbrev pub escape_char : Char → String
escape_char ch =
    if code ch == b'&'
    then "&amp;"
    else if code ch == b'<'
    then "&lt;"
    else if code ch == b'>'
    then "&gt;"
    else if code ch == b'"'
    then "&quot;"
    else if code ch == b'\''
    then "&#39;"
    else ch ∷ ""

-- One pass, character by character.
unfoldable pub escape_each : String → String
escape_each [] = ""
escape_each (ch ∷ s) = escape_char ch ++ escape_each s

replace_all-append :
    (c : ℕ) (by' s t : String)
    → replace_all c by' (s ++ t) ≡ replace_all c by' s ++ replace_all c by' t
unfolding replace_all
replace_all-append c by' [] t = rw (nil-append t, nil-append (replace_all c by' t)) refl
replace_all-append c by' (ch ∷ s) t = elim (Bool-cases (code ch == c)) [
  | inl hit ↦ rw (cons-append, hit, replace_all-append c by' s t, append_assoc) refl
  | inr miss ↦ rw (cons-append, miss, replace_all-append c by' s t, cons-append) refl
]

-- Replacements, one after the other.
abbrev passes : List (ℕ × String) → String → String
passes List.[] s = s
passes (List.◌∷◌ (c, by') ps) s = passes ps (replace_all c by' s)

passes-append :
    (ps : List (ℕ × String)) (s t : String) → passes ps (s ++ t) ≡ passes ps s ++ passes ps t
passes-append List.[] s t = refl
passes-append (List.◌∷◌ (c, by') ps) s t =
    ap (passes ps) (replace_all-append c by' s t)
    ∙ passes-append ps (replace_all c by' s) (replace_all c by' t)

passes_hit :
    (c : ℕ) (by' : String) (ps : List (ℕ × String)) (ch : Char) (s : String)
    → passes ps by' ≡ by'
    → (code ch == c) ≡ true
    → passes (List.◌∷◌ (c, by') ps) (ch ∷ s) ≡ by' ++ passes (List.◌∷◌ (c, by') ps) s
unfolding replace_all
passes_hit c by' ps ch s whole hit =
    ap (passes ps) (rw hit refl)
    ∙ passes-append ps by' (replace_all c by' s)
    ∙ ap (λ (t : String). t ++ passes ps (replace_all c by' s)) whole

passes_miss :
    (c : ℕ) (by' : String) (ps : List (ℕ × String)) (ch : Char) (s : String)
    → (code ch == c) ≡ false
    → passes (List.◌∷◌ (c, by') ps) (ch ∷ s) ≡ passes ps (ch ∷ replace_all c by' s)
unfolding replace_all
passes_miss c by' ps ch s miss = ap (passes ps) (rw miss refl)

abbrev apos : List (ℕ × String)
apos = List.◌∷◌ (b'\'', "&#39;") List.[]

abbrev quotes : List (ℕ × String)
quotes = List.◌∷◌ (b'"', "&quot;") apos

abbrev angles : List (ℕ × String)
angles = List.◌∷◌ (b'>', "&gt;") quotes

abbrev all_but_amp : List (ℕ × String)
all_but_amp = List.◌∷◌ (b'<', "&lt;") angles

-- The first replacement of a list, where the rest is known.
passes-cons :
    (c : ℕ) (by' : String) (ps : List (ℕ × String)) (ch : Char) (s rest : String)
    → passes ps by' ≡ by'
    → ((t : String) → passes ps (ch ∷ t) ≡ rest ++ passes ps t)
    → passes (List.◌∷◌ (c, by') ps) (ch ∷ s)
      ≡ (if code ch == c then by' else rest) ++ passes (List.◌∷◌ (c, by') ps) s
passes-cons c by' ps ch s rest whole later = elim (Bool-cases (code ch == c)) [
  | inl hit ↦ rw hit (passes_hit c by' ps ch s whole hit)
  | inr miss ↦ rw miss (passes_miss c by' ps ch s miss ∙ later (replace_all c by' s))
]

-- The five replacements act on a character as one pass.
escape_html-cons : (ch : Char) (s : String) → escape_html (ch ∷ s) ≡ escape_char ch ++ escape_html s
unfolding escape_html replace_all
escape_html-cons ch s =
    let at_apos = λ (t : String).
      passes-cons b'\'' "&#39;" List.[] ch t (ch ∷ "") refl
        (λ u. sym (cons-append ch "" u ∙ ap (λ (v : String). ch ∷ v) (nil-append u))) in
    let at_quot = λ (t : String). passes-cons b'"' "&quot;" apos ch t _ refl at_apos in
    let at_gt = λ (t : String). passes-cons b'>' "&gt;" quotes ch t _ refl at_quot in
    let at_lt = λ (t : String). passes-cons b'<' "&lt;" angles ch t _ refl at_gt in
    passes-cons b'&' "&amp;" all_but_amp ch s _ refl at_lt

-- A character that neither opens a tag nor ends an attribute.
abbrev pub harmless : ℕ → Bool
harmless c = not (c == b'<') && not (c == b'>') && not (c == b'"') && not (c == b'\'')

abbrev pub inert : String → Bool
inert [] = true
inert (ch ∷ s) = harmless (code ch) && inert s

abbrev pub IsInert : String → Type 0
IsInert s = inert s ≡ true

IsInert-append : (s t : String) → IsInert s → IsInert t → IsInert (s ++ t)
IsInert-append [] t hs ht = rw nil-append ht
IsInert-append (ch ∷ s) t hs ht =
    rw cons-append (ground (arith, IsInert-append s t (ground arith) ht))

IsInert-if :
    (b : Bool) (x y : String) → IsInert x → (b ≡ false → IsInert y) → IsInert (if b then x else y)
IsInert-if true x y hx hy = hx
IsInert-if false x y hx hy = hy refl

IsInert-escape_char : (ch : Char) → IsInert (escape_char ch)
IsInert-escape_char ch =
    let unquoted : String = if code ch == b'\'' then "&#39;" else ch ∷ "" in
    let unangled : String = if code ch == b'"' then "&quot;" else unquoted in
    let closed : String = if code ch == b'>' then "&gt;" else unangled in
    let opened : String = if code ch == b'<' then "&lt;" else closed in
    IsInert-if (code ch == b'&') "&amp;" opened refl λ amp.
      IsInert-if (code ch == b'<') "&lt;" closed refl λ lt.
        IsInert-if (code ch == b'>') "&gt;" unangled refl λ gt.
          IsInert-if (code ch == b'"') "&quot;" unquoted refl λ quot.
            IsInert-if (code ch == b'\'') "&#39;" (ch ∷ "") refl
              λ apos'. rw (lt, gt, quot, apos') refl

IsInert-escape_each : (s : String) → IsInert (escape_each s)
unfolding escape_each
IsInert-escape_each [] = refl
IsInert-escape_each (ch ∷ s) =
    IsInert-append (escape_char ch) (escape_each s) (IsInert-escape_char ch) (IsInert-escape_each s)

escape_html-escape_each : (s : String) → escape_html s ≡ escape_each s
unfolding escape_each
escape_html-escape_each [] = unfold escape_html replace_all in refl
escape_html-escape_each (ch ∷ s) =
    escape_html-cons ch s ∙ ap (λ (t : String). escape_char ch ++ t) (escape_html-escape_each s)

-- The five replacements of escapeHtml, one after the other, give what one pass gives that puts an entity for each of
-- the five characters; and the result has no angle bracket and no quote.
pub escape_html_lem : (s : String) → (escape_html s ≡ escape_each s) × IsInert (escape_html s)
escape_html_lem s =
    (escape_html-escape_each s, rw (escape_html-escape_each s) (IsInert-escape_each s))
