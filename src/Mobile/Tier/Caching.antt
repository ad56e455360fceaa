-- ===== src/Mobile/Tier/Caching.antt =====
-- apps/mobile/src/lib/tier.ts: what the cache keeps.
use omnia_note.Prelude.{◌≡◌, refl, ap, ◌∙◌, Option, none, some, List, [], ◌∷◌}
use omnia_note.Shared.Tiers.{AccountTier}
use omnia_note.Mobile.Tier.{
  TierCache, pending, fetch_tier, settle, use_account_tier, Event, mounts, answers, changes_user,
  run,
}

-- The first page that is mounted has asked.
abbrev pub asked : TierCache
asked = record { cached = none; inflight = some pending }

run-settled :
    (answer : Option AccountTier) (es : List Event)
    → run es (settle answer asked) ≡ settle answer asked
unfolding run fetch_tier settle
run-settled answer [] = refl
run-settled none (mounts ∷ es) = run-settled none es
run-settled (some t) (mounts ∷ es) = run-settled (some t) es
run-settled none (answers a ∷ es) = run-settled none es
run-settled (some t) (answers a ∷ es) = run-settled (some t) es
run-settled answer (changes_user ∷ es) = run-settled answer es

known-settled : (answer : Option AccountTier) → use_account_tier (settle answer asked) ≡ answer
unfolding use_account_tier fetch_tier settle
known-settled none = refl
known-settled (some t) = refl

-- The first answer decides for good: whatever happens later, another user who signs in included, every page
-- knows the tier of that answer, or none if that call failed.
pub first_answer_stays :
    (answer : Option AccountTier) (es : List Event)
    → use_account_tier (run es (settle answer asked)) ≡ answer
first_answer_stays answer es = ap use_account_tier (run-settled answer es) ∙ known-settled answer
