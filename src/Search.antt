-- ===== src/Search.antt =====
-- apps/api/src/search/search.service.ts: the index of Meilisearch. Keeping it up to date is best
-- effort: a task that fails is logged, and the request goes on.
use omnia_note.Prelude.{String, Option, List, ◌==◌, insert, delete_where, if◌then◌else◌}
use omnia_note.World.{Uuid, Item, World}

-- addDocuments replaces the document of the same id.
unfoldable pub index_item : Item → World → World
index_item item w =
    if w.meili_succeeds
    then record w { index = insert item (delete_where (λ d. d.id == item.id) w.index) }
    else w

unfoldable pub remove_item : Uuid → World → World
remove_item item_id w =
    if w.meili_succeeds then record w { index = delete_where (λ d. d.id == item_id) w.index } else w

-- The hits of a query under the filter `accountId = … [AND locationId = …]`, in relevance order: what
-- Meilisearch answers, given its index.
abbrev pub Engine : Type 0
Engine = List Item → (account_id : Uuid) (query : String) (location_id : Option Uuid) → List Uuid
