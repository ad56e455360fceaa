-- ===== src/Items/Quota.antt =====
-- confirmUpload of apps/api/src/items/items.service.ts against the storage limit of the tier.
use omnia_note.Prelude.{
  ℕ, ◌+◌, ◌≤◌, String, ◌≡◌, ◌≢◌, Bool, true, false, Option, none, some, arith, ◌==◌, inl, inr,
  Option-cases, find_first, find_first_holds, update_first, find_first-updated,
  find_first-update_first, find_first-delete_where, IsKeyed, find_deleted,
}
use omnia_note.Http.{ok, answer, after}
use omnia_note.Shared.Tiers.{AccountTier, tier_limits, is_within_storage_limit}
use omnia_note.World.{Uuid, Account, Item, ObjectKey, World, find_account}
use omnia_note.Storage.{same_key}
use omnia_note.Items.Access.{find_item}
use omnia_note.Items.Capture.{confirm_upload}

abbrev pub Fits : Option ℕ → ℕ → Type 0
Fits none n = Unit
Fits (some limit) n = n ≤ limit

abbrev pub QuotaOf : Option Account → Type 0
QuotaOf none = Unit
QuotaOf (some acc) = Fits (tier_limits acc.tier).max_storage_bytes acc.storage_used_bytes

-- The account with this id, if there is one, uses no more storage than its tier allows.
abbrev pub IsWithinQuota : Uuid → World → Type 0
IsWithinQuota a w = QuotaOf (find_account a w)

abbrev pub charged : ℕ → Account → Account
charged bytes a = record a { storage_used_bytes = a.storage_used_bytes + bytes }

abbrev account_by : Uuid → Account → Bool
account_by id a = a.id == id

Fits-checked :
    (tier : AccountTier) (used bytes : ℕ)
    → is_within_storage_limit tier used bytes ≡ true
    → Fits (tier_limits tier).max_storage_bytes (used + bytes)
unfolding is_within_storage_limit tier_limits
Fits-checked tier used bytes h = ground arith

find_charged_ne :
    (a account_id : Uuid) (bytes : ℕ) (w : World)
    → a ≢ account_id
    → find_first (account_by a) (update_first (account_by account_id) (charged bytes) w.accounts)
      ≡ find_first (account_by a) w.accounts
find_charged_ne a account_id bytes w h =
    find_first-update_first (account_by a) (account_by account_id) (charged bytes) w.accounts
      (λ x. ground arith) (λ x. ground arith)

-- An account within the storage limit of its tier is within it after any confirmation of an upload, its
-- own or another account's, successful or not.
pub confirm_upload-IsWithinQuota :
    (a account_id item_id : Uuid) (bytes : ℕ) (mime : String) (w : World)
    → IsWithinQuota a w
    → IsWithinQuota a (after (confirm_upload account_id item_id bytes mime) w)
unfolding confirm_upload
confirm_upload-IsWithinQuota a account_id item_id bytes mime w h =
    elim (Option-cases (find_account account_id w)) [
      | inl missing ↦ ground arith
      | inr (b, e) ↦ ground (
        arith,
        find_charged_ne a account_id bytes w,
        find_first_holds (account_by account_id) w.accounts b e,
        find_first-updated (account_by account_id) (charged bytes) w.accounts b e,
        Fits-checked b.tier b.storage_used_bytes bytes,
      )
    ]

abbrev pub sized : ℕ → String → Item → Item
sized bytes mime i = record i { storage_bytes = bytes; mime_type = some mime }

abbrev pub item_by : Uuid → Item → Bool
item_by id i = i.id == id

-- A confirmation that succeeds records the size and the type on the item, charges the account for the
-- size, and the sum is within the limit of the tier.
pub confirm_upload_records :
    (account_id item_id : Uuid) (bytes : ℕ) (mime : String) (w : World) (i : Item) (acc : Account)
    → find_item item_id w ≡ some i
    → find_account account_id w ≡ some acc
    → answer (confirm_upload account_id item_id bytes mime) w ≡ ok tt
    → (find_item item_id (after (confirm_upload account_id item_id bytes mime) w)
        ≡ some (sized bytes mime i))
      × (find_account account_id (after (confirm_upload account_id item_id bytes mime) w)
          ≡ some (charged bytes acc))
      × Fits (tier_limits acc.tier).max_storage_bytes (acc.storage_used_bytes + bytes)
unfolding confirm_upload
confirm_upload_records account_id item_id bytes mime w i acc found owner done = (
  ground (
    arith,
    find_first_holds (item_by item_id) w.items i found,
    find_first-updated (item_by item_id) (sized bytes mime) w.items i found,
  ),
  ground (
    arith,
    find_first_holds (account_by account_id) w.accounts acc owner,
    find_first-updated (account_by account_id) (charged bytes) w.accounts acc owner,
  ),
  ground (arith, Fits-checked acc.tier acc.storage_used_bytes bytes),
)

-- If the ids of items are unique, the account's item has a file, the size does not fit, and the task of
-- the index succeeds, then the confirmation is refused, the item, its document and its object are gone,
-- and the accounts are as before.
pub confirm_upload_refuses :
    (account_id item_id : Uuid) (bytes : ℕ) (mime : String) (w : World) (i : Item) (key : ObjectKey)
    (acc : Account)
    → IsKeyed (λ (j : Item). j.id) w.items
    → find_item item_id w ≡ some i
    → i.account_id ≡ account_id
    → i.storage_key ≡ some key
    → find_account account_id w ≡ some acc
    → is_within_storage_limit acc.tier acc.storage_used_bytes bytes ≡ false
    → w.meili_succeeds ≡ true
    → (find_item item_id (after (confirm_upload account_id item_id bytes mime) w) ≡ none)
      × (find_first (item_by item_id) (after (confirm_upload account_id item_id bytes mime) w).index
          ≡ none)
      × (find_first (same_key key) (after (confirm_upload account_id item_id bytes mime) w).objects
          ≡ none)
      × ((after (confirm_upload account_id item_id bytes mime) w).accounts ≡ w.accounts)
      × (answer (confirm_upload account_id item_id bytes mime) w ≢ ok tt)
unfolding confirm_upload
confirm_upload_refuses account_id item_id bytes mime w i key acc keyed found own has_file owner over
      up =
    (
      ground (arith, find_deleted (λ (j : Item). j.id) item_id w.items keyed),
      ground
          (arith, find_first-delete_where (item_by item_id) (item_by item_id) w.index (λ x h. h)),
      ground (arith, find_first-delete_where (same_key key) (same_key key) w.objects (λ x h. h)),
      ground arith,
      ground arith,
    )

abbrev pub confirmed_twice : Uuid → Uuid → ℕ → ℕ → String → World → World
confirmed_twice account_id item_id bytes again mime w =
    after (confirm_upload account_id item_id again mime)
      (after (confirm_upload account_id item_id bytes mime) w)

-- If one item is confirmed twice with success, the account is charged for both sizes, while the item
-- keeps the second.
pub confirm_upload_twice :
    (account_id item_id : Uuid) (bytes again : ℕ) (mime : String) (w : World) (i : Item)
    (acc : Account)
    → find_item item_id w ≡ some i
    → find_account account_id w ≡ some acc
    → answer (confirm_upload account_id item_id bytes mime) w ≡ ok tt
    → answer
        (confirm_upload account_id item_id again mime)
        (after (confirm_upload account_id item_id bytes mime) w)
      ≡ ok tt
    → (find_item item_id (confirmed_twice account_id item_id bytes again mime w)
        ≡ some (sized again mime i))
      × (find_account account_id (confirmed_twice account_id item_id bytes again mime w)
          ≡ some (charged again (charged bytes acc)))
confirm_upload_twice account_id item_id bytes again mime w i acc found owner done done' =
    let (i', a', _) =
      confirm_upload_records account_id item_id bytes mime w i acc found owner done in
    let (i2, a2, _) =
      confirm_upload_records account_id item_id again mime
        (after (confirm_upload account_id item_id bytes mime) w) (sized bytes mime i)
        (charged bytes acc) i' a' done' in
    (i2, a2)
