-- ===== src/Mobile/Outbox.antt =====
-- apps/mobile/src/lib/outboxDb.ts: the IndexedDB store of captured items, by their local id. The
-- store gives its entries in the order of the ids. Opening the database is not modelled.
use omnia_note.Prelude.{
  ℕ, String, ◌≡◌, Bool, Option, none, some, List, [], ◌∷◌, arith, ◌==◌, ltb, find_first,
  delete_where, if◌then◌else◌,
}
use omnia_note.Shared.Enums.{ItemType, SyncStatus, StampType}

pub record Blob : Type 0 where
  pub size : ℕ
  pub content : ℕ

pub record OutboxEntry : Type 0 where
  pub local_id : ℕ
  pub type : ItemType
  pub title : String
  pub body : Option String
  pub location_id : Option ℕ
  pub folder_id : Option ℕ
  pub spot_id : Option ℕ
  pub stamps : Option (List StampType)
  pub tag_names : Option (List String)
  pub file_extension : Option String
  pub content_type : Option String
  pub file_blob : Option Blob
  pub thumbnail_blob : Option Blob
  pub client_created_at : ℕ
  pub status : SyncStatus
  pub error_message : Option String
  pub created_at : ℕ

abbrev pub has_id : ℕ → OutboxEntry → Bool
has_id id e = e.local_id == id

abbrev pub Store : Type 0
Store = List OutboxEntry

unfoldable pub put : OutboxEntry → Store → Store
put e [] = e ∷ []
put e (x ∷ xs) =
    if x.local_id == e.local_id
    then e ∷ xs
    else if ltb e.local_id x.local_id
    then e ∷ x ∷ xs
    else x ∷ put e xs

unfoldable pub delete : ℕ → Store → Store
delete id store = delete_where (has_id id) store

unfoldable pub find : ℕ → Store → Option OutboxEntry
find id store = find_first (has_id id) store

pub find-put :
    (id : ℕ) (e : OutboxEntry) (store : Store)
    → find id (put e store) ≡ (if e.local_id == id then some e else find id store)
unfolding find find_first put
find-put id e [] = ground arith
find-put id e (x ∷ xs) = ground (arith, find-put id e xs)

pub find-delete :
    (id j : ℕ) (store : Store)
    → find id (delete j store) ≡ (if j == id then none else find id store)
unfolding find find_first delete delete_where
find-delete id j [] = ground arith
find-delete id j (x ∷ xs) = ground (arith, find-delete id j xs)

pub ruleset store_laws = (find-put, find-delete)
