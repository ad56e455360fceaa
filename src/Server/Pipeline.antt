-- ===== src/Server/Pipeline.antt =====
-- The activity interceptor and the error filter around the handlers of apps/api/src, and sequences of
-- requests.
use omnia_note.Prelude.{
  String, ◌≡◌, refl, Option, none, some, List, [], ◌∷◌, arith, inl, inr, Option-cases, Bool-cases,
  leb, All,
}
use omnia_note.Http.{Exception, Outcome, returned, thrown, after, state}
use omnia_note.Shared.Enums.{AccountRole}
use omnia_note.World.{Uuid, User, World, Draws}
use omnia_note.Auth.{Caller, platform_admin_guard}
use omnia_note.Team.{remove_member, update_member_role}
use omnia_note.Common.{HttpRequest, touch, log_error, country_of, with_country, status_of}
use omnia_note.Server.Frames.{Statement, Same, Frame, frame}
use omnia_note.Server.Stability.{
  IsStable, On, Same-On, Keeps, keeps, keeps_at, Frame-Keeps, kept, auth_handle-Keeps,
}
use omnia_note.Server.Members.{team_handle-Keeps, team_handle_public-Keeps}
use omnia_note.Server.Contents.{location_handle-Keeps, PlacesKeep, ItemsKeep, item_handle-Keeps}
use omnia_note.Server.{
  Call, auth_call, team_call, public_team_call, location_call, item_call, admin_call, Arrival,
  Answer, Libraries, Event, arrives, waits, services, caller_of, http_request, touched, dispatch,
  filtered, serve, happen, run_events,
}

guard-Frame : (user : Option Caller) → Frame (platform_admin_guard user)
unfolding platform_admin_guard
guard-Frame user = frame (λ w. ground arith)

log_error-Same :
    (id : Uuid) (message : Exception → String) (stack : Option String) (r : HttpRequest)
    (e : Exception) (w : World)
    → Same w (log_error id message stack r e w)
unfolding log_error
log_error-Same id message stack r e w = elim (Bool-cases (leb 500 (status_of e))) [
  | inl yes' ↦ rw yes' (refl, refl, refl, refl, refl, refl)
  | inr no' ↦ rw no' (refl, refl, refl, refl, refl, refl)
]

with_country_same :
    (c : Option String) (u : User)
    → ((with_country c u).role ≡ u.role) × ((with_country c u).account_id ≡ u.account_id)
with_country_same none u = (refl, refl)
with_country_same (some c) u = (refl, refl)

module _ (Q : Statement) (stable : IsStable Q) where
  touch-On : (r : HttpRequest) (w : World) → On Q stable w → On Q stable (touch r w)
  unfolding touch
  touch-On r w p = elim (Option-cases r.user) [
    | inl nobody ↦ rw nobody p
    | inr (user, e) ↦ rw e (
        stable.adjusted user.sub _ w.users w.accounts w.items w.locations w.folders w.spots
          (λ u.
            with_country_same (country_of r.country_header)
              (record u { last_seen_at = some w.clock }))
          p)
  ]

  -- What removals, changes of roles and the requests about items have to keep, for what follows.
  pub record CallsKeep (draws : Draws) (call : Call) : Type 0 where
    pub removes :
        (account_id caller_id id : Uuid) → Keeps Q stable (remove_member account_id caller_id id)
    pub changes :
        (account_id caller_id id : Uuid) (role : AccountRole)
        → Keeps Q stable (update_member_role account_id caller_id id role)
    pub places : (user : Caller) → caller_of call ≡ some user → PlacesKeep Q stable draws user
    pub items : (user : Caller) → caller_of call ≡ some user → ItemsKeep Q stable draws user

  module _ (lib : Libraries) where
    touched-Keeps : (a : Arrival) → Keeps Q stable (touched lib a)
    touched-Keeps a = keeps (touch-On (http_request a))

    dispatch-Keeps :
        (a : Arrival) (call : Call) → CallsKeep a.draws call → Keeps Q stable (dispatch lib a call)
    dispatch-Keeps a (auth_call r) k = search (kept, touched-Keeps, auth_handle-Keeps)
    dispatch-Keeps a (team_call user r) k =
        search
          (kept, touched-Keeps, team_handle-Keeps Q stable lib.crypto a.draws k.removes k.changes)
    dispatch-Keeps a (public_team_call r) k = search (kept, touched-Keeps, team_handle_public-Keeps)
    dispatch-Keeps a (location_call user r) k = search (
      kept,
      touched-Keeps,
      location_handle-Keeps Q stable lib.by_name a.draws user (k.places user refl) r,
    )
    dispatch-Keeps a (item_call user r) k = search (
      kept,
      touched-Keeps,
      item_handle-Keeps Q stable lib.engine a.draws user (k.items user refl) r,
    )
    dispatch-Keeps a (admin_call user r) k =
        search (kept, touched-Keeps, Frame-Keeps Q stable (guard-Frame user))

    filtered-On :
        (a : Arrival) (o : Outcome World Answer)
        → On Q stable (state o)
        → On Q stable (state (filtered lib a o))
    filtered-On a (returned x w) p = p
    filtered-On a (thrown e w) p =
        Same-On Q stable w (log_error a.log_id lib.message a.stack (http_request a) e w)
          (log_error-Same a.log_id lib.message a.stack (http_request a) e w) p

    serve-On :
        (a : Arrival) (w : World)
        → CallsKeep a.draws a.call
        → On Q stable w
        → On Q stable (after (serve lib a) w)
    unfolding serve
    serve-On a w k p =
        filtered-On a (dispatch lib a a.call w) (keeps_at Q stable (dispatch-Keeps a a.call k) w p)

    -- For each request of the sequence.
    abbrev pub EventKeeps : Event lib → Type 0
    EventKeeps (arrives a) = CallsKeep a.draws a.call
    EventKeeps _ = Unit

    happen-On :
        (e : Event lib) (w : World) → EventKeeps e → On Q stable w → On Q stable (happen lib e w)
    unfolding happen
    happen-On (arrives a) w k p = serve-On a w k p
    happen-On (waits n) w k p = p
    happen-On (services meili resend) w k p = p

    pub run_events-On :
        (es : List (Event lib)) (w : World)
        → All EventKeeps es
        → On Q stable w
        → On Q stable (run_events lib es w)
    unfolding run_events
    run_events-On [] w k p = p
    run_events-On (e ∷ es) w k p = run_events-On es (happen lib e w) k.1 (happen-On e w k.0 p)
