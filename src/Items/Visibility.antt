-- ===== src/Items/Visibility.antt =====
-- The items in the answers of apps/api/src/items/items.controller.ts.
use omnia_note.Prelude.{
  ℕ, zero, suc, String, ◌≡◌, refl, Bool, true, Option, none, some, List, [], ◌∷◌, arith, inl, inr,
  Bool-cases, find_first, find_first_holds, All, All-select, leb,
}
use omnia_note.Http.{answer, Answered}
use omnia_note.World.{Uuid, Item, World, Draws}
use omnia_note.Auth.{Caller}
use omnia_note.Search.{Engine}
use omnia_note.Items.Capture.{create, confirm_upload, new_item}
use omnia_note.Items.Filing.{file, set_tags, set_stamps, toggle_favorite, attach_to_note}
use omnia_note.Items.Lists.{
  Tile, with_thumbnail_urls, insert_newest, newest_first, take, resolve, prepend, own_item,
  list_where, list_recent, search, in_folder, in_inbox, in_favorites, in_spot, list_inbox,
  list_favorites, list_by_folder, list_by_spot,
}
use omnia_note.Items.Lists
use omnia_note.Items.Controller.{
  Request, Response, created, tiles, details, updated, tagged, handle, post_item, post_uploaded,
  patch_file, patch_favorite, patch_stamps, patch_tags, post_attach, get_item, get_by_folder,
  get_inbox, get_recent, get_favorites, get_tags, get_by_spot, get_search,
}

module _ (account_id : Uuid) where
  abbrev pub IsOwn : Item → Type 0
  IsOwn i = i.account_id ≡ account_id

  abbrev IsOwnTile : Tile → Type 0
  IsOwnTile t = IsOwn t.item

  -- What an answer shows of items; the attachments of a note and the tags are not looked at.
  abbrev pub ShowsOwn : Response → Type 0
  ShowsOwn (created r) = IsOwn r.item
  ShowsOwn (tiles ts) = All IsOwnTile ts
  ShowsOwn (details d) = IsOwn d.item
  ShowsOwn (updated i) = IsOwn i
  ShowsOwn (tagged i _) = IsOwn i
  ShowsOwn _ = Unit

  All-tiles : (is : List Item) → All IsOwn is → All IsOwnTile (with_thumbnail_urls is)
  unfolding with_thumbnail_urls
  All-tiles [] h = tt
  All-tiles (i ∷ is) h = (h.0, All-tiles is h.1)

  All-insert_newest :
      (i : Item) (is : List Item) → IsOwn i → All IsOwn is → All IsOwn (insert_newest i is)
  unfolding insert_newest
  All-insert_newest i [] h k = (h, tt)
  All-insert_newest i (j ∷ js) h k =
      elim (Bool-cases (leb j.client_created_at i.client_created_at)) [
        | inl newer ↦ rw newer (h, k)
        | inr older ↦ rw older (k.0, All-insert_newest i js h k.1)
      ]

  All-newest_first : (is : List Item) → All IsOwn is → All IsOwn (newest_first is)
  unfolding newest_first
  All-newest_first [] h = tt
  All-newest_first (i ∷ is) h = All-insert_newest i (newest_first is) h.0 (All-newest_first is h.1)

  All-take : (n : ℕ) (is : List Item) → All IsOwn is → All IsOwn (take n is)
  unfolding take
  All-take zero is h = tt
  All-take (suc n) [] h = tt
  All-take (suc n) (i ∷ is) h = (h.0, All-take n is h.1)

  All-list_where :
      (p : Item → Bool) (w : World)
      → ((i : Item) → p i ≡ true → IsOwn i)
      → All IsOwnTile (list_where p w)
  unfolding list_where
  All-list_where p w h = All-tiles _ (All-newest_first _ (All-select IsOwn p w.items h))

  All-list_recent : (n : ℕ) (w : World) → All IsOwnTile (list_recent account_id n w)
  unfolding list_recent
  All-list_recent n w =
      All-tiles _
        (All-take n _ (All-newest_first _ (All-select IsOwn _ w.items (λ i. ground arith))))

  All-prepend :
      (o : Option Item) (is : List Item)
      → ((i : Item) → o ≡ some i → IsOwn i)
      → All IsOwn is
      → All IsOwn (prepend o is)
  All-prepend none is h k = k
  All-prepend (some i) is h k = (h i refl, k)

  own_item-IsOwn :
      (items : List Item) (id : Uuid) (i : Item)
      → find_first (own_item account_id id) items ≡ some i
      → IsOwn i
  own_item-IsOwn items id i e = ground (arith, find_first_holds (own_item account_id id) items i e)

  All-resolve : (items : List Item) (ids : List Uuid) → All IsOwn (resolve account_id items ids)
  unfolding resolve
  All-resolve items [] = tt
  All-resolve items (id ∷ ids) =
      All-prepend (find_first (own_item account_id id) items) (resolve account_id items ids)
        (own_item-IsOwn items id) (All-resolve items ids)

  All-search :
      (engine : Engine) (q : String) (location_id : Option Uuid) (w : World)
      → All IsOwnTile (search engine account_id q location_id w)
  unfolding search
  All-search engine q location_id w = All-tiles _ (All-resolve w.items _)

  IsOwn-in_folder :
      (location_id : Uuid) (folder_id : Option Uuid) (i : Item)
      → in_folder account_id location_id folder_id i ≡ true
      → IsOwn i
  IsOwn-in_folder location_id none i h = ground arith
  IsOwn-in_folder location_id (some f) i h = ground arith

-- Whatever the search engine answers, every item that a successful answer shows belongs to the account
-- that asked: what was created or changed, what a list or a search gives, and the item of a detail
-- view. The attachments of a note and the tags are not looked at.
pub handle-ShowsOwn :
    (engine : Engine) (draws : Draws) (user : Caller) (r : Request) (w : World)
    → Answered (ShowsOwn user.account_id) (answer (handle engine draws user r) w)
unfolding handle
handle-ShowsOwn engine draws user (post_item input) w = unfold create new_item in ground arith
handle-ShowsOwn engine draws user (post_uploaded id bytes mime) w =
    unfold confirm_upload in ground arith
handle-ShowsOwn engine draws user (patch_file id input) w = unfold file in ground arith
handle-ShowsOwn engine draws user (patch_favorite id) w = unfold toggle_favorite in ground arith
handle-ShowsOwn engine draws user (patch_stamps id stamps) w = unfold set_stamps in ground arith
handle-ShowsOwn engine draws user (patch_tags id tags) w = unfold set_tags in ground arith
handle-ShowsOwn engine draws user (post_attach note attachment) w =
    unfold attach_to_note in ground arith
handle-ShowsOwn engine draws user (get_item id) w = unfold Lists.get in ground arith
handle-ShowsOwn engine draws user (get_search q location_id) w =
    All-search user.account_id engine q location_id w
handle-ShowsOwn engine draws user get_inbox w =
    unfold list_inbox in
    All-list_where user.account_id (in_inbox user.account_id) w (λ i. ground arith)
handle-ShowsOwn engine draws user get_recent w = All-list_recent user.account_id 20 w
handle-ShowsOwn engine draws user get_favorites w =
    unfold list_favorites in
    All-list_where user.account_id (in_favorites user.account_id) w (λ i. ground arith)
handle-ShowsOwn engine draws user get_tags w = tt
handle-ShowsOwn engine draws user (get_by_folder location_id folder_id) w =
    unfold list_by_folder in
    All-list_where user.account_id (in_folder user.account_id location_id folder_id) w
      (IsOwn-in_folder user.account_id location_id folder_id)
handle-ShowsOwn engine draws user (get_by_spot spot_id) w =
    unfold list_by_spot in
    All-list_where user.account_id (in_spot user.account_id spot_id) w (λ i. ground arith)
