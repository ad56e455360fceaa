-- ===== src/Mobile/Tier.antt =====
-- apps/mobile/src/lib/tier.ts: the tier of the account, fetched once for the whole app.
pub mod Caching
use omnia_note.Prelude.{ℕ, Bool, Option, none, some, List, [], ◌∷◌}
use omnia_note.Shared.Tiers.{AccountTier}

-- The promise of a fetch.
pub data Fetch : Type 0 where
  pending : Fetch
  fulfilled : AccountTier → Fetch
  rejected : Fetch

-- `cached` and `inflight`
pub record TierCache : Type 0 where
  pub cached : Option AccountTier
  pub inflight : Option Fetch

-- `if (cached) return cached; if (!inflight) …`
unfoldable pub fetch_tier : TierCache → TierCache
fetch_tier c = elim c.cached [
  | some t ↦ c
  | none ↦ elim c.inflight [ some f ↦ c | none ↦ record c { inflight = some pending } ]
]

-- The answer of the server, or none if the call fails. A promise is settled once.
unfoldable pub settle : Option AccountTier → TierCache → TierCache
settle answer c = elim c.inflight [
  | some pending ↦ elim answer [
    | some t ↦ record { cached = some t; inflight = some (fulfilled t) }
    | none ↦ record c { inflight = some rejected }
  ]
  | _ ↦ c
]

abbrev value : Option Fetch → Option AccountTier
value (some (fulfilled t)) = some t
value _ = none

-- What a page knows that is mounted now, once the promise that it gets is settled; null stays null.
unfoldable pub use_account_tier : TierCache → Option AccountTier
unfolding fetch_tier
use_account_tier c = elim c.cached [ some t ↦ some t | none ↦ value (fetch_tier c).inflight ]

pub data Event : Type 0 where
  mounts : Event
  answers : Option AccountTier → Event
  -- The user signs out, and another one signs in: neither touches the cache.
  changes_user : Event

unfoldable pub run : List Event → TierCache → TierCache
unfolding fetch_tier settle
run [] c = c
run (mounts ∷ es) c = run es (fetch_tier c)
run (answers answer ∷ es) c = run es (settle answer c)
run (changes_user ∷ es) c = run es c
