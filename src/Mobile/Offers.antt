-- ===== src/Mobile/Offers.antt =====
-- apps/mobile/src/pages: which actions the pages offer, by the role of the user and the limits of the tier
-- (TeamPage.tsx, HomePage.tsx, LocationPage.tsx).
pub mod Agreement
use omnia_note.Prelude.{
  ℕ, suc, Bool, true, false, not, ◌&&◌, ◌||◌, Option, none, some, List, [], ◌∷◌, ◌+◌, ◌==◌, leb,
}
use omnia_note.Shared.Enums.{AccountRole, owner, admin, member, is_owner, is_member}
use omnia_note.Shared.Tiers.{AccountTier, TierLimit, tier_limits}
use omnia_note.World.{Uuid, User, Location, Folder, Spot}
use omnia_note.Auth.Controller.{Profile}
use omnia_note.Team.{Overview}

module _ {A : Type 0} where
  -- `xs.length`
  abbrev pub length : List A → ℕ
  length [] = 0
  length (x ∷ xs) = suc (length xs)

abbrev is_admin : AccountRole → Bool
is_admin admin = true
is_admin _ = false

-- A profile that is not loaded is null.
unfoldable pub can_manage : Option Profile → Bool
can_manage none = false
can_manage (some profile) = is_owner profile.role || is_admin profile.role

unfoldable pub viewer_owns : Option Profile → Bool
viewer_owns none = false
viewer_owns (some profile) = is_owner profile.role

abbrev pub is_me : Profile → User → Bool
is_me profile row = row.id == profile.id

-- Whether a row of the team has the button to remove the member.
unfoldable pub can_remove : Profile → User → Bool
unfolding can_manage viewer_owns
can_remove profile row =
    can_manage (some profile)
    && not (is_me profile row)
    && (viewer_owns (some profile) || is_member row.role)

-- Whether a row of the team has the choice of a role.
unfoldable pub can_change_role : Profile → User → Bool
unfolding viewer_owns
can_change_role profile row = viewer_owns (some profile) && not (is_me profile row)

-- `limit != null && current >= limit`
abbrev pub reached : Option ℕ → ℕ → Bool
reached none current = false
reached (some limit) current = leb limit current

-- A team that is not loaded is null.
unfoldable pub at_limit : Option Overview → Bool
at_limit none = false
at_limit (some team) = reached team.max_team_members (length team.members + length team.invites)

-- AccountTierInfo, and `accountTier != null && …`
abbrev pub known_reached : (TierLimit → Option ℕ) → Option AccountTier → ℕ → Bool
known_reached limit none current = false
known_reached limit (some tier) current = reached (limit (tier_limits tier)) current

unfoldable pub at_location_limit : Option AccountTier → List Location → Bool
unfolding tier_limits
at_location_limit tier locations = known_reached (λ l. l.max_locations) tier (length locations)

-- All folders of the location count, nested ones included.
unfoldable pub at_folder_limit : Option AccountTier → List Folder → Bool
unfolding tier_limits
at_folder_limit tier folders = known_reached (λ l. l.max_folders_per_location) tier (length folders)

unfoldable pub at_spot_limit : Option AccountTier → List Spot → Bool
unfolding tier_limits
at_spot_limit tier spots = known_reached (λ l. l.max_spots_per_location) tier (length spots)
