-- ===== src/Locations/Limits.antt =====
-- apps/api/src/locations/locations.service.ts against the limits of the tiers.
use omnia_note.Prelude.{ℕ, ◌+◌, ◌≤◌, ◌≡◌, true, Option, none, some, arith}
use omnia_note.Shared.Tiers.{
  AccountTier, tier_limits, is_within_location_limit, is_within_folder_limit, is_within_spot_limit,
}

abbrev pub Within : Option ℕ → ℕ → Type 0
Within none n = Unit
Within (some limit) n = n ≤ limit

pub location_step :
    (tier : AccountTier) (n : ℕ)
    → is_within_location_limit tier n ≡ true
    → Within (tier_limits tier).max_locations (n + 1)
unfolding is_within_location_limit tier_limits
location_step tier n h = ground arith

pub folder_step :
    (tier : AccountTier) (n : ℕ)
    → is_within_folder_limit tier n ≡ true
    → Within (tier_limits tier).max_folders_per_location (n + 1)
unfolding is_within_folder_limit tier_limits
folder_step tier n h = ground arith

pub spot_step :
    (tier : AccountTier) (n : ℕ)
    → is_within_spot_limit tier n ≡ true
    → Within (tier_limits tier).max_spots_per_location (n + 1)
unfolding is_within_spot_limit tier_limits
spot_step tier n h = ground arith
