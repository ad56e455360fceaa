-- ===== src/Shared/Credentials.antt =====
-- What the schemas of packages/shared/src/schemas/auth.ts and team.ts say together.
use omnia_note.Prelude.{
  ℕ, ◌≤◌, ◌≡◌, String, Bool, true, List, [], ◌∷◌, arith, codes, inl, inr, Bool-cases,
}
use omnia_note.Shared.Schemas.{
  Formats, RegisterInput, AcceptInviteInput, units, any_code, is_upper, is_lower, is_digit,
  password_schema, username_schema, register_schema, accept_invite_schema, login_schema,
}

-- A code of a text, with a property.
pub data Some (P : ℕ → Type 0) : List ℕ → Type 0 where
  here : {c : ℕ} {cs : List ℕ} → P c → Some P (c ∷ cs)
  there : {c : ℕ} {cs : List ℕ} → Some P cs → Some P (c ∷ cs)

any_code-Some : (p : ℕ → Bool) (cs : List ℕ) → any_code p cs ≡ true → Some (λ c. p c ≡ true) cs
unfolding any_code
any_code-Some p [] h = absurd (ground arith)
any_code-Some p (c ∷ cs) h = elim (Bool-cases (p c)) [
  | inl yes' ↦ here yes'
  | inr no' ↦ there (any_code-Some p cs (ground arith))
]

-- A password that passes has ten units at least, an upper-case letter, a lower-case letter and a digit.
pub password_strength :
    (s : String)
    → password_schema s ≡ true
    → (10 ≤ units s)
      × Some (λ c. is_upper c ≡ true) (codes s)
      × Some (λ c. is_lower c ≡ true) (codes s)
      × Some (λ c. is_digit c ≡ true) (codes s)
unfolding password_schema
password_strength s h = (
  ground arith,
  any_code-Some is_upper (codes s) (ground arith),
  any_code-Some is_lower (codes s) (ground arith),
  any_code-Some is_digit (codes s) (ground arith),
)

-- The username and the password of a registration that passes, and of an acceptance of an invite that
-- passes, are let through by the schema of the sign-in.
pub login_schema_admits :
    (formats : Formats) (r : RegisterInput) (i : AcceptInviteInput)
    → register_schema formats r ≡ true
    → accept_invite_schema i ≡ true
    → (login_schema (record { email_or_username = r.username; password = r.password }) ≡ true)
      × (login_schema (record { email_or_username = i.username; password = i.password }) ≡ true)
unfolding register_schema accept_invite_schema login_schema username_schema password_schema
login_schema_admits formats r i registered accepted = (ground arith, ground arith)
