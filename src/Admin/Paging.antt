-- ===== src/Admin/Paging.antt =====
-- apps/api/src/admin/admin.service.ts and apps/api/public/admin/admin.js: the lists of accounts and errors,
-- page after page.
use omnia_note.Prelude.{
  ℕ, zero, suc, ◌<◌, ◌≡◌, refl, ap, ◌∙◌, Option, none, some, List, ◌++◌, arith, inl, inr,
  Option-cases, IsKeyed,
}
use mathlib.Core.Option
use omnia_note.World.{Uuid, ErrorLog, World}
use omnia_note.Admin.Service.{length, take, from_cursor, next_cursor, latest_first, list_errors}
use omnia_note.Admin.Cursor.{walk, walk_all, IsKeyed-latest_first, length-latest_first}

abbrev pub error_id : ErrorLog → Uuid
error_id e = e.id

-- The operator's list of errors from a cursor on: the pages that taps on "next page" show, joined, until there is no
-- next page; `none` if the fuel, one unit for each page, runs out before that.
unfoldable pub follow_errors : (fuel limit : ℕ) → Option Uuid → World → Option (List ErrorLog)
unfolding list_errors
follow_errors zero limit cursor w = none
follow_errors (suc fuel) limit cursor w =
    let page = list_errors limit cursor w in
    elim page.next [
      | none ↦ some page.errors
      | some k ↦ Option.map (λ later. page.errors ++ later) (follow_errors fuel limit (some k) w)
    ]

follow_errors-walk :
    (fuel limit : ℕ) (cursor : Option Uuid) (w : World)
    → follow_errors fuel limit cursor w
      ≡ walk error_id fuel limit cursor (latest_first (λ e. e.created_at) w.error_logs)
unfolding follow_errors walk
follow_errors-walk zero limit cursor w = refl
follow_errors-walk (suc fuel) limit cursor w =
    let rows =
      take limit (
        from_cursor error_id cursor (latest_first (λ (e : ErrorLog). e.created_at) w.error_logs)) in
    elim (Option-cases (next_cursor error_id limit rows)) [
      | inl last ↦ rw (follow_errors, walk, last) refl
      | inr (k, more) ↦
          rw (follow_errors, walk, more)
            (ap (Option.map (λ (ys : List ErrorLog). rows ++ ys))
              (follow_errors-walk fuel limit (some k) w))
    ]

-- If the ids of logged errors are unique, nothing is logged meanwhile and errors of equal time keep one order, the pages of any positive size, followed by
-- their cursors, come to a last page within as many pages as there are errors, and one; joined, they are
-- all errors in order, each once.
pub follow_errors_all :
    (fuel limit : ℕ) (w : World)
    → IsKeyed error_id w.error_logs
    → length w.error_logs < fuel
    → follow_errors fuel (suc limit) none w
      ≡ some (latest_first (λ (e : ErrorLog). e.created_at) w.error_logs)
follow_errors_all fuel limit w keyed enough =
    follow_errors-walk fuel (suc limit) none w
    ∙ walk_all error_id fuel limit none (latest_first (λ (e : ErrorLog). e.created_at) w.error_logs)
        (IsKeyed-latest_first error_id (λ (e : ErrorLog). e.created_at) w.error_logs keyed)
        (omega (arith, enough, length-latest_first (λ (e : ErrorLog). e.created_at) w.error_logs))
