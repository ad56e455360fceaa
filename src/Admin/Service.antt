-- ===== src/Admin/Service.antt =====
-- apps/api/src/admin/admin.service.ts. The health checks are calls of other services, and are not
-- modelled.
use omnia_note.Prelude.{
  ℕ, zero, suc, ◌+◌, ◌-◌, ◌*◌, String, Bool, true, false, not, ◌&&◌, ◌||◌, Option, none, some, List,
  [], ◌∷◌, ◌==◌, str_eq, leb, count, select, if◌then◌else◌,
}
use omnia_note.Shared.Tiers.{AccountTier, free, basic, premium, corporate}
use omnia_note.World.{
  Uuid, Time, Account, User, ErrorLog, Subscription, SubscriptionStatus, active, grace_period,
  expired, cancelled, World,
}

abbrev pub online_window_ms : ℕ
online_window_ms = 5 * 60 * 1000

abbrev pub day_ms : ℕ
day_ms = 24 * 60 * 60 * 1000

abbrev pub week_ms : ℕ
week_ms = 7 * day_ms

abbrev pub month_ms : ℕ
month_ms = 30 * day_ms

module _ {ℓ} {A : Type ℓ} where
  unfoldable pub length : List A → ℕ
  length [] = 0
  length (x ∷ xs) = suc (length xs)

  abbrev pub take : ℕ → List A → List A
  take zero xs = []
  take (suc n) [] = []
  take (suc n) (x ∷ xs) = x ∷ take n xs

  -- orderBy: { createdAt: "desc" }; rows of equal time have one fixed order here, which the database leaves open.
  abbrev pub insert_latest : (A → Time) → A → List A → List A
  insert_latest time x [] = x ∷ []
  insert_latest time x (y ∷ ys) =
      let rest = insert_latest time x ys in if leb (time y) (time x) then x ∷ y ∷ ys else y ∷ rest

  abbrev pub latest_first : (A → Time) → List A → List A
  latest_first time [] = []
  latest_first time (x ∷ xs) = insert_latest time x (latest_first time xs)

  -- `skip: 1, cursor: { id }`
  abbrev pub rest_after : (A → Uuid) → Uuid → List A → List A
  rest_after key id [] = []
  rest_after key id (x ∷ xs) = if key x == id then xs else rest_after key id xs

  abbrev pub from_cursor : (A → Uuid) → Option Uuid → List A → List A
  from_cursor key none xs = xs
  from_cursor key (some id) xs = rest_after key id xs

  abbrev pub last_key : (A → Uuid) → List A → Option Uuid
  last_key key [] = none
  last_key key (x ∷ []) = some (key x)
  last_key key (x ∷ y ∷ ys) = last_key key (y ∷ ys)

  -- `rows.length === limit ? rows[rows.length - 1].id : null`
  abbrev pub next_cursor : (A → Uuid) → ℕ → List A → Option Uuid
  next_cursor key limit rows = if length rows == limit then last_key key rows else none

-- `lastSeenAt: { gte: … }`; a null is never in range.
abbrev pub seen_since : Time → User → Bool
seen_since time u = elim u.last_seen_at [ none ↦ false | some t ↦ leb time t ]

abbrev pub same_tier : AccountTier → AccountTier → Bool
same_tier free free = true
same_tier basic basic = true
same_tier premium premium = true
same_tier corporate corporate = true
same_tier _ _ = false

abbrev pub same_status : SubscriptionStatus → SubscriptionStatus → Bool
same_status active active = true
same_status grace_period grace_period = true
same_status expired expired = true
same_status cancelled cancelled = true
same_status _ _ = false

abbrev pub storage_of : List Account → ℕ
storage_of [] = 0
storage_of (a ∷ as') = a.storage_used_bytes + storage_of as'

-- groupBy lastKnownCountry, the largest group first.
abbrev lives_in : String → User → Bool
lives_in country u = elim u.last_known_country [ none ↦ false | some c ↦ str_eq c country ]

abbrev add_country : Option String → List String → List String
add_country none cs = cs
add_country (some c) [] = c ∷ []
add_country (some c) (d ∷ ds) =
    let rest = add_country (some c) ds in if str_eq c d then d ∷ ds else d ∷ rest

abbrev countries : List User → List String
countries [] = []
countries (u ∷ us) = add_country u.last_known_country (countries us)

abbrev insert_larger : String × ℕ → List (String × ℕ) → List (String × ℕ)
insert_larger g [] = g ∷ []
insert_larger g (h ∷ hs) =
    let rest = insert_larger g hs in if leb h.1 g.1 then g ∷ h ∷ hs else h ∷ rest

abbrev group_countries : List User → List String → List (String × ℕ)
group_countries us [] = []
group_countries us (c ∷ cs) = insert_larger (c, count (lives_in c) us) (group_countries us cs)

pub record Overview : Type 0 where
  pub total_accounts : ℕ
  pub accounts_by_tier : AccountTier → ℕ
  pub total_users : ℕ
  pub online_now : ℕ
  pub active_last_24h : ℕ
  pub active_last_7d : ℕ
  pub new_users_last_30d : ℕ
  pub total_items : ℕ
  pub total_storage_bytes : ℕ
  pub country_breakdown : List (String × ℕ)
  pub errors_last_24h : ℕ
  pub subscriptions_by_status : SubscriptionStatus → ℕ

-- A group that has no row is absent from the code's object, and counts 0 here.
abbrev pub accounts_by_tier_of : World → AccountTier → ℕ
accounts_by_tier_of w tier = count (λ (a : Account). same_tier a.tier tier) w.accounts

unfoldable pub get_overview : World → Overview
get_overview w = record {
  total_accounts =
      accounts_by_tier_of w free
      + accounts_by_tier_of w basic
      + accounts_by_tier_of w premium
      + accounts_by_tier_of w corporate;
  accounts_by_tier = accounts_by_tier_of w;
  total_users = length w.users;
  online_now = count (seen_since (w.clock - online_window_ms)) w.users;
  active_last_24h = count (seen_since (w.clock - day_ms)) w.users;
  active_last_7d = count (seen_since (w.clock - week_ms)) w.users;
  new_users_last_30d = count (λ (u : User). leb (w.clock - month_ms) u.created_at) w.users;
  total_items = length w.items;
  total_storage_bytes = storage_of w.accounts;
  country_breakdown = group_countries w.users (countries w.users);
  errors_last_24h = count (λ (e : ErrorLog). leb (w.clock - day_ms) e.created_at) w.error_logs;
  subscriptions_by_status =
      λ s. count (λ (x : Subscription). same_status x.status s) w.subscriptions;
}

pub record ErrorPage : Type 0 where
  pub errors : List ErrorLog
  pub next : Option Uuid

unfoldable pub list_errors : ℕ → Option Uuid → World → ErrorPage
list_errors limit cursor w =
    let errors =
      take limit (from_cursor (λ e. e.id) cursor (latest_first (λ e. e.created_at) w.error_logs)) in
    record { errors = errors; next = next_cursor (λ e. e.id) limit errors }

pub record AccountRow : Type 0 where
  pub id : Uuid
  pub name : Option String
  pub tier : AccountTier
  pub storage_used_bytes : ℕ
  pub member_count : ℕ
  pub item_count : ℕ
  pub location_count : ℕ
  pub created_at : Time

abbrev account_row : World → Account → AccountRow
account_row w a = record {
  id = a.id;
  name = a.name;
  tier = a.tier;
  storage_used_bytes = a.storage_used_bytes;
  member_count = count (λ u. u.account_id == a.id) w.users;
  item_count = count (λ i. i.account_id == a.id) w.items;
  location_count = count (λ l. l.account_id == a.id) w.locations;
  created_at = a.created_at;
}

abbrev account_rows : World → List Account → List AccountRow
account_rows w [] = []
account_rows w (a ∷ as') = account_row w a ∷ account_rows w as'

pub record AccountPage : Type 0 where
  pub accounts : List AccountRow
  pub next : Option Uuid

abbrev name_contains : (String → String → Bool) → String → Option String → Bool
name_contains contains text none = false
name_contains contains text (some name) = contains name text

abbrev is_zero : ℕ → Bool
is_zero zero = true
is_zero (suc n) = false

-- The `where` of a search: the name of the account, or a login of one of its users.
abbrev matches : (String → String → Bool) → World → Option String → Account → Bool
matches contains w none a = true
matches contains w (some text) a =
    name_contains contains text a.name
    || not (
        is_zero (
          count (λ u. u.account_id == a.id && (contains u.email text || contains u.username text))
            w.users))

-- `contains` is the database's test, in which case does not count; an empty search is none.
unfoldable pub list_accounts :
    (String → String → Bool) → ℕ → Option Uuid → Option String → World → AccountPage
list_accounts contains limit cursor search w =
    let rows = take limit (
      from_cursor (λ (a : Account). a.id) cursor
        (latest_first (λ (a : Account). a.created_at)
          (select (matches contains w search) w.accounts))) in
    record { accounts = account_rows w rows; next = next_cursor (λ (a : Account). a.id) limit rows }
