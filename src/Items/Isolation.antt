-- ===== src/Items/Isolation.antt =====
-- The items of other accounts under the requests of apps/api/src/items/items.controller.ts.
use omnia_note.Prelude.{
  ℕ, String, ◌≡◌, refl, Bool, not, some, List, arith, ◌==◌, inl, inr, Option-cases, select,
  select-insert, select-update_first, select-delete_first,
}
use omnia_note.Http.{after}
use omnia_note.Shared.Enums.{StampType}
use omnia_note.World.{Uuid, Item, World, Draws}
use omnia_note.Auth.{Caller}
use omnia_note.Search.{Engine}
use omnia_note.Items.Access.{find_item}
use omnia_note.Items.Lists
use omnia_note.Items.Controller.{
  Request, post_item, post_uploaded, patch_file, patch_favorite, patch_stamps, patch_tags,
  post_attach, get_item, handle,
}
use omnia_note.Items.Capture.{CreateItemInput, create, confirm_upload, new_item}
use omnia_note.Items.Filing.{
  FileItemInput, file, filed, set_tags, set_stamps, toggle_favorite, attach_to_note,
}

-- The items of the other accounts.
abbrev pub foreign : Uuid → Item → Bool
foreign account_id i = not (i.account_id == account_id)

abbrev pub foreign_items : Uuid → World → List Item
foreign_items account_id w = select (foreign account_id) w.items

abbrev by_id : Uuid → Item → Bool
by_id id i = i.id == id

-- What a lemma about a change of one item needs: the row that is found, and the test on it.
module _ (account_id item_id : Uuid) (w : World) where
  pub foreign_items-file :
      (input : FileItemInput)
      → foreign_items account_id (after (file account_id item_id input) w)
        ≡ foreign_items account_id w
  unfolding file
  foreign_items-file input = elim (Option-cases (find_item item_id w)) [
    | inl missing ↦ ground arith
    | inr (i, e) ↦
        ground (
          arith,
          select-update_first (foreign account_id) (by_id item_id) (filed input) w.items i e,
        )
  ]

  pub foreign_items-confirm_upload :
      (bytes : ℕ) (mime : String)
      → foreign_items account_id (after (confirm_upload account_id item_id bytes mime) w)
        ≡ foreign_items account_id w
  unfolding confirm_upload
  foreign_items-confirm_upload bytes mime = elim (Option-cases (find_item item_id w)) [
    | inl missing ↦ ground arith
    | inr (i, e) ↦ ground (
      arith,
      select-update_first (foreign account_id) (by_id item_id)
          (λ (j : Item). record j { storage_bytes = bytes; mime_type = some mime }) w.items i e,
      select-delete_first (foreign account_id) (by_id item_id) w.items i e,
    )
  ]

  pub foreign_items-set_stamps :
      (stamps : List StampType)
      → foreign_items account_id (after (set_stamps account_id item_id stamps) w)
        ≡ foreign_items account_id w
  unfolding set_stamps
  foreign_items-set_stamps stamps = elim (Option-cases (find_item item_id w)) [
    | inl missing ↦ ground arith
    | inr (i, e) ↦ ground (
      arith,
      select-update_first (foreign account_id) (by_id item_id)
          (λ (j : Item). record j { stamps = stamps }) w.items i e,
    )
  ]

  pub foreign_items-toggle_favorite :
      foreign_items account_id (after (toggle_favorite account_id item_id) w)
      ≡ foreign_items account_id w
  unfolding toggle_favorite
  foreign_items-toggle_favorite = elim (Option-cases (find_item item_id w)) [
    | inl missing ↦ ground arith
    | inr (i, e) ↦ ground (
      arith,
      select-update_first (foreign account_id) (by_id item_id)
          (λ (j : Item). record j { is_favorite = not i.is_favorite }) w.items i e,
    )
  ]

  items-set_tags :
      (draws : Draws) (names : List String)
      → (after (set_tags draws account_id item_id names) w).items ≡ w.items
  unfolding set_tags
  items-set_tags draws names = ground arith

  items-attach_to_note :
      (attachment_id : Uuid)
      → (after (attach_to_note account_id item_id attachment_id) w).items ≡ w.items
  unfolding attach_to_note
  items-attach_to_note attachment_id = ground arith

  state-get : after (Lists.get account_id item_id) w ≡ w
  unfolding Lists.get
  state-get = ground arith

pub foreign_items-create :
    (draws : Draws) (account_id user_id : Uuid) (input : CreateItemInput) (w : World)
    → foreign_items account_id (after (create draws account_id user_id input) w)
      ≡ foreign_items account_id w
unfolding create
foreign_items-create draws account_id user_id input w =
    ground
      (arith, select-insert (foreign account_id) (new_item draws account_id user_id input) w.items)

-- Whatever the request and however it ends, the items of the other accounts are the same after it.
pub foreign_items-handle :
    (engine : Engine) (draws : Draws) (user : Caller) (r : Request) (w : World)
    → foreign_items user.account_id (after (handle engine draws user r) w)
      ≡ foreign_items user.account_id w
unfolding handle
foreign_items-handle engine draws user (post_item input) w =
    ground (arith, foreign_items-create draws user.account_id user.sub input w)
foreign_items-handle engine draws user (post_uploaded id bytes mime) w =
    ground (arith, foreign_items-confirm_upload user.account_id id w bytes mime)
foreign_items-handle engine draws user (patch_file id input) w =
    ground (arith, foreign_items-file user.account_id id w input)
foreign_items-handle engine draws user (patch_favorite id) w =
    ground (arith, foreign_items-toggle_favorite user.account_id id w)
foreign_items-handle engine draws user (patch_stamps id stamps) w =
    ground (arith, foreign_items-set_stamps user.account_id id w stamps)
foreign_items-handle engine draws user (patch_tags id names) w =
    ground (arith, items-set_tags user.account_id id w draws names)
foreign_items-handle engine draws user (post_attach note attachment) w =
    ground (arith, items-attach_to_note user.account_id note w attachment)
foreign_items-handle engine draws user (get_item id) w =
    ground (arith, state-get user.account_id id w)
foreign_items-handle engine draws user r w = refl
