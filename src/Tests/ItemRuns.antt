-- ===== src/Tests/ItemRuns.antt =====
-- apps/api/src/items on the small state.
use omnia_note.Prelude.{◌+◌, ◌≡◌, ◌≢◌, refl, List, [], ◌∷◌, some, none, find_first, update_first}
use omnia_note.Http.{answer, after, ok, Answered}
use omnia_note.Shared.Tiers.{tier_limits, is_within_storage_limit, basic}
use omnia_note.World.{Uuid, Item, find_account}
use omnia_note.Search.{Engine}
use omnia_note.Storage.{same_key}
use omnia_note.Items.{
  find_item, confirm_upload, FileItemInput, keep, put, get_owned_item, update_item,
}
use omnia_note.Items.Controller.{get_search, handle}
use omnia_note.Items.Visibility.{ShowsOwn, handle-ShowsOwn}
use omnia_note.Items.Placement.{Placement}
use omnia_note.Items.Quota.{
  Fits, sized, charged, item_by, confirmed_twice, confirm_upload_records, confirm_upload_refuses,
  confirm_upload_twice,
}
use omnia_note.Tests.Fixtures.{
  first_draws, today, caller, cellar_shot, shop_shot, shop_key, plumber, neighbour,
}

abbrev all_ids : List Item → List Uuid
all_ids [] = []
all_ids (i ∷ is) = i.id ∷ all_ids is

-- An engine that finds every document, whoever asks.
abbrev finds_all : Engine
finds_all documents account_id q location_id = all_ids documents

handle-ShowsOwn_example :
    Answered
      (ShowsOwn 1)
      (answer (handle finds_all first_draws caller (get_search "shot" none)) today)
handle-ShowsOwn_example =
    handle-ShowsOwn finds_all first_draws caller (get_search "shot" none) today

confirm_upload_records_example :
    (find_item 50 (after (confirm_upload 1 50 300 "image/jpeg") today)
      ≡ some (sized 300 "image/jpeg" cellar_shot))
    × (find_account 1 (after (confirm_upload 1 50 300 "image/jpeg") today)
        ≡ some (charged 300 plumber))
    × Fits (tier_limits basic).max_storage_bytes (100 + 300)
unfolding confirm_upload find_first is_within_storage_limit tier_limits get_owned_item update_item
confirm_upload_records_example =
    confirm_upload_records 1 50 300 "image/jpeg" today cellar_shot plumber refl refl refl

confirm_upload_refuses_example :
    (find_item 51 (after (confirm_upload 2 51 25 "image/jpeg") today) ≡ none)
    × (find_first (item_by 51) (after (confirm_upload 2 51 25 "image/jpeg") today).index ≡ none)
    × (find_first (same_key shop_key) (after (confirm_upload 2 51 25 "image/jpeg") today).objects
        ≡ none)
    × ((after (confirm_upload 2 51 25 "image/jpeg") today).accounts ≡ today.accounts)
    × (answer (confirm_upload 2 51 25 "image/jpeg") today ≢ ok tt)
unfolding find_first is_within_storage_limit tier_limits
confirm_upload_refuses_example =
    confirm_upload_refuses 2 51 25 "image/jpeg" today shop_shot shop_key neighbour
      (refl, (refl, tt)) refl refl refl refl refl refl

confirm_upload_twice_example :
    (find_item 50 (confirmed_twice 1 50 300 300 "image/jpeg" today)
      ≡ some (sized 300 "image/jpeg" cellar_shot))
    × (find_account 1 (confirmed_twice 1 50 300 300 "image/jpeg" today)
        ≡ some (charged 300 (charged 300 plumber)))
unfolding confirm_upload find_first update_first is_within_storage_limit tier_limits get_owned_item
    update_item
confirm_upload_twice_example =
    confirm_upload_twice 1 50 300 300 "image/jpeg" today cellar_shot plumber refl refl refl refl

abbrev into_attic : FileItemInput
into_attic = record { location_id = 40; folder_id = put 41; spot_id = keep }
