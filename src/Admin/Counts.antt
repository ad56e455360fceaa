-- ===== src/Admin/Counts.antt =====
-- The counts of getOverview of apps/api/src/admin/admin.service.ts.
use omnia_note.Prelude.{ℕ, ◌+◌, ◌-◌, ◌≤◌, ◌≡◌, refl, List, [], ◌∷◌, arith, count, count_mono, Bool}
use omnia_note.Shared.Tiers.{AccountTier, free, basic, premium, corporate}
use omnia_note.World.{Account, User, World}
use omnia_note.Admin.Service.{
  length, get_overview, seen_since, same_tier, online_window_ms, day_ms, week_ms,
}

count-length {ℓ} : {A : Type ℓ} (p : A → Bool) (xs : List A) → count p xs ≤ length xs
unfolding count length
count-length p [] = omega arith
count-length p (x ∷ xs) = ground (arith, count-length p xs)

abbrev of_tier : AccountTier → Account → Bool
of_tier tier a = same_tier a.tier tier

length-tiers :
    (as' : List Account)
    → count (of_tier free) as'
        + count (of_tier basic) as'
        + count (of_tier premium) as'
        + count (of_tier corporate) as'
      ≡ length as'
unfolding count length
length-tiers [] = refl
length-tiers (a ∷ as') = ground (arith, length-tiers as')

seen_since_mono :
    (s t : ℕ) (us : List User) → s ≤ t → count (seen_since t) us ≤ count (seen_since s) us
seen_since_mono s t us h = count_mono (seen_since t) (seen_since s) us (λ u k. ground (arith, h, k))

-- The overview counts every account once, and the users online, of the last day, of the last week and
-- all of them are each no more than the next.
pub get_overview_counts :
    (w : World)
    → ((get_overview w).total_accounts ≡ length w.accounts)
      × ((get_overview w).online_now ≤ (get_overview w).active_last_24h)
      × ((get_overview w).active_last_24h ≤ (get_overview w).active_last_7d)
      × ((get_overview w).active_last_7d ≤ (get_overview w).total_users)
unfolding get_overview
get_overview_counts w = (
  length-tiers w.accounts,
  seen_since_mono (w.clock - day_ms) (w.clock - online_window_ms) w.users (omega arith),
  seen_since_mono (w.clock - week_ms) (w.clock - day_ms) w.users (omega arith),
  count-length (seen_since (w.clock - week_ms)) w.users,
)
