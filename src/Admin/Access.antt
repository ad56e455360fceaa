-- ===== src/Admin/Access.antt =====
-- Who is answered by apps/api/src/admin/admin.controller.ts.
use omnia_note.Prelude.{
  String, ◌≡◌, refl, Bool, true, Option, none, some, arith, inl, inr, Option-cases,
}
use omnia_note.Http.{answer, after, ok}
use omnia_note.World.{User, World, find_user}
use omnia_note.Auth.{Caller, platform_admin_guard}
use omnia_note.Admin.Controller.{Request, Response, handle, respond}

-- An admin request that succeeds was made by a user who is a platform admin in the table at this
-- moment; it answers from the tables, and changes nothing.
pub handle_ok :
    (contains : String → String → Bool) (user : Option Caller) (r : Request) (w : World)
    (a : Response)
    → answer (handle contains user r) w ≡ ok a
    → ((caller : Caller) × (u : User) × (user ≡ some caller)
        × (find_user caller.sub w ≡ some u)
        × (u.is_platform_admin ≡ true))
      × (a ≡ respond contains r w)
      × (after (handle contains user r) w ≡ w)
unfolding handle platform_admin_guard
handle_ok contains none r w a h = absurd (ground arith)
handle_ok contains (some caller) r w a h = elim (Option-cases (find_user caller.sub w)) [
  | inl absent ↦ absurd (ground arith)
  | inr (u, e) ↦ ((caller, u, refl, e, ground arith), ground arith, ground arith)
]
