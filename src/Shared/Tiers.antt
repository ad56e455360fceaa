-- ===== src/Shared/Tiers.antt =====
-- packages/shared/src/tiers.ts. `none` is the source's `null`, an unlimited resource.
use omnia_note.Prelude.{ℕ, ◌+◌, ◌*◌, String, Bool, true, false, Option, none, some, ltb, leb}

pub data AccountTier : Type 0 where
  free basic premium corporate : AccountTier

pub record TierLimit : Type 0 where
  pub max_locations : Option ℕ
  pub max_folders_per_location : Option ℕ
  pub max_spots_per_location : Option ℕ
  pub max_storage_bytes : Option ℕ
  pub max_team_members : Option ℕ
  pub sold_via_store : Bool

abbrev pub gb : ℕ
gb = 1024 * 1024 * 1024

unfoldable pub tier_limits : AccountTier → TierLimit
tier_limits free = record {
  max_locations = some 1;
  max_folders_per_location = some 5;
  max_spots_per_location = some 5;
  max_storage_bytes = some (1 * gb);
  max_team_members = some 1;
  sold_via_store = false;
}
tier_limits basic = record {
  max_locations = some 3;
  max_folders_per_location = some 20;
  max_spots_per_location = some 20;
  max_storage_bytes = some (5 * gb);
  max_team_members = some 5;
  sold_via_store = true;
}
tier_limits premium = record {
  max_locations = some 10;
  max_folders_per_location = some 75;
  max_spots_per_location = some 75;
  max_storage_bytes = some (25 * gb);
  max_team_members = some 15;
  sold_via_store = true;
}
tier_limits corporate = record {
  max_locations = none;
  max_folders_per_location = none;
  max_spots_per_location = none;
  max_storage_bytes = none;
  max_team_members = none;
  sold_via_store = false;
}

-- `limit === null || current < limit`
abbrev pub below : Option ℕ → ℕ → Bool
below none current = true
below (some limit) current = ltb current limit

unfoldable pub is_within_location_limit : AccountTier → ℕ → Bool
is_within_location_limit tier current = below (tier_limits tier).max_locations current

unfoldable pub is_within_folder_limit : AccountTier → ℕ → Bool
is_within_folder_limit tier current = below (tier_limits tier).max_folders_per_location current

unfoldable pub is_within_spot_limit : AccountTier → ℕ → Bool
is_within_spot_limit tier current = below (tier_limits tier).max_spots_per_location current

unfoldable pub is_within_team_member_limit : AccountTier → ℕ → Bool
is_within_team_member_limit tier current = below (tier_limits tier).max_team_members current

-- `limit === null || used + incoming <= limit`
abbrev pub fits : Option ℕ → ℕ → Bool
fits none total = true
fits (some limit) total = leb total limit

unfoldable pub is_within_storage_limit : AccountTier → ℕ → ℕ → Bool
is_within_storage_limit tier used incoming =
    fits (tier_limits tier).max_storage_bytes (used + incoming)

-- `${account.tier}` in a message
abbrev pub tier_name : AccountTier → String
tier_name free = "FREE"
tier_name basic = "BASIC"
tier_name premium = "PREMIUM"
tier_name corporate = "CORPORATE"
