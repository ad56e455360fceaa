-- ===== src/World/Queries.antt =====
-- The Prisma queries that several services make, with the constraints of schema.prisma: unique
-- columns, foreign keys and cascades.
use omnia_note.Prelude.{
  String, Bool, not, ◌||◌, Option, ◌==◌, str_eq, is_some, find_first, insert, delete_first,
  delete_where,
}
use omnia_note.Http.{
  Exec, record_not_found, unique_violation, foreign_key_violation, pure, guard, gets, modify,
  or_throw, ◌>>=◌, ◌>>◌,
}
use omnia_note.World.Rows.{Uuid, Account, User, World}

abbrev pub find_account : Uuid → World → Option Account
find_account id w = find_first (λ a. a.id == id) w.accounts

abbrev pub find_user : Uuid → World → Option User
find_user id w = find_first (λ u. u.id == id) w.users

-- findUniqueOrThrow
abbrev pub get_account : Uuid → Exec World Account
get_account id w = or_throw record_not_found (find_account id w) w

abbrev pub get_user : Uuid → Exec World User
get_user id w = or_throw record_not_found (find_user id w) w

-- `{ OR: [{ email }, { username }] }`
abbrev pub has_login : String → String → User → Bool
has_login email username u = str_eq u.email email || str_eq u.username username

abbrev clashes : User → User → Bool
clashes new u = u.id == new.id || has_login new.email new.username u

unfoldable pub create_user : User → Exec World User
create_user u = do
  w ← gets (λ s. s)
  guard (not (is_some (find_first (clashes u) w.users))) unique_violation
  guard (is_some (find_account u.account_id w)) foreign_key_violation
  modify (λ s. record s { users = insert u s.users })
  pure u

-- The user's refresh tokens and backup codes go with it.
unfoldable pub delete_user : Uuid → World → World
delete_user id w = record w {
  users = delete_first (λ u. u.id == id) w.users;
  refresh_tokens = delete_where (λ t. t.user_id == id) w.refresh_tokens;
  backup_codes = delete_where (λ c. c.user_id == id) w.backup_codes;
}
