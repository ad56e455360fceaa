-- ===== src/Mobile/SearchBox.antt =====
-- apps/mobile/src/pages/SearchPage.tsx: the search box. An effect runs when the query changes; a timer
-- that it sets sends the request, and the answers come in any order.
pub mod Settled
use omnia_note.Prelude.{
  ℕ, suc, String, ◌≡◌, Bool, true, false, Option, none, some, List, [], ◌∷◌, ◌==◌, str_eq, trim,
  find_first, delete_where, if◌then◌else◌,
}

-- A request that was sent, by the number it got, with its text.
pub record Flight : Type 0 where
  pub id : ℕ
  pub text : String

pub record Box (Hit : Type 0) : Type 0 where
  pub query : String
  pub results : List Hit
  pub loading : Bool
  pub error : Option String
  pub timer : Option String
  pub request_id : ℕ
  pub flying : List Flight

abbrev pub numbered : ℕ → Flight → Bool
numbered id f = f.id == id

module _ {Hit : Type 0} where
  abbrev pub fresh_box : Box Hit
  fresh_box = record {
    query = "";
    results = [];
    loading = false;
    error = none;
    timer = none;
    request_id = 0;
    flying = [];
  }

  -- The effect on a new query.
  unfoldable pub type_query : String → Box Hit → Box Hit
  type_query text b =
      if str_eq (trim text) ""
      then record b { query = text; timer = none; results = []; loading = false; error = none }
      else record b { query = text; timer = some (trim text); loading = true }

  -- The timer's callback, up to its await.
  unfoldable pub send_request : String → Box Hit → Box Hit
  send_request text b = record b {
    timer = none;
    request_id = suc b.request_id;
    flying = record { id = suc b.request_id; text = text } ∷ b.flying;
  }

  abbrev landed : ℕ → Box Hit → Box Hit
  landed id b = record b { flying = delete_where (numbered id) b.flying }

  unfoldable pub receive_hits : ℕ → List Hit → Box Hit → Box Hit
  receive_hits id hits b =
      if id == b.request_id
      then record (landed id b) { results = hits; error = none; loading = false }
      else landed id b

  unfoldable pub receive_failure : ℕ → String → Box Hit → Box Hit
  receive_failure id message b =
      if id == b.request_id
      then record (landed id b) { error = some message; loading = false }
      else landed id b

  -- What happens next: `search` is what the server finds for a text.
  pub data Step (search : String → List Hit) : Box Hit → Box Hit → Type 0 where
    types : (b : Box Hit) (text : String) → Step search b (type_query text b)
    elapses :
        (b : Box Hit) (text : String) → b.timer ≡ some text → Step search b (send_request text b)
    answers :
        (b : Box Hit) (f : Flight)
        → find_first (numbered f.id) b.flying ≡ some f
        → Step search b (receive_hits f.id (search f.text) b)
    fails :
        (b : Box Hit) (f : Flight) (message : String)
        → find_first (numbered f.id) b.flying ≡ some f
        → Step search b (receive_failure f.id message b)

  pub data Reach (search : String → List Hit) (start : Box Hit) : Box Hit → Type 0 where
    here : Reach search start start
    next : {b c : Box Hit} → Reach search start b → Step search b c → Reach search start c
