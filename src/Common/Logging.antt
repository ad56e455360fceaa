-- ===== src/Common/Logging.antt =====
-- What apps/api/src/common/filters/error-logging.filter.ts writes.
use omnia_note.Prelude.{String, ◌≡◌, ◌≢◌, refl, Option, arith, insert, inl, inr, ◌⊎◌}
use omnia_note.Http.{
  Exception, bad_request, unauthorized, forbidden, not_found, conflict, record_not_found,
  unique_violation, foreign_key_violation, internal_error,
}
use omnia_note.World.{Uuid, World}
use omnia_note.Common.{HttpRequest, status_of, error_row, log_error}

-- An error is logged, in one row, if its status is 500, and nothing else is changed; an error that the code
-- throws on purpose, of another status, changes nothing.
pub log_error_iff :
    (id : Uuid) (library : Exception → String) (stack : Option String) (request : HttpRequest)
    (e : Exception) (w : World)
    → ((status_of e ≡ 500)
        × (log_error id library stack request e w ≡ record w {
          error_logs = insert (error_row id library stack request e w) w.error_logs;
        }))
      ⊎ ((status_of e ≢ 500) × (log_error id library stack request e w ≡ w))
unfolding log_error
log_error_iff id library stack request (bad_request m) w = inr (ground arith, refl)
log_error_iff id library stack request (unauthorized m) w = inr (ground arith, refl)
log_error_iff id library stack request (forbidden m) w = inr (ground arith, refl)
log_error_iff id library stack request (not_found m) w = inr (ground arith, refl)
log_error_iff id library stack request (conflict m) w = inr (ground arith, refl)
log_error_iff id library stack request record_not_found w = inl (refl, refl)
log_error_iff id library stack request unique_violation w = inl (refl, refl)
log_error_iff id library stack request foreign_key_violation w = inl (refl, refl)
log_error_iff id library stack request (internal_error m) w = inl (refl, refl)
