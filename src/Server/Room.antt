-- ===== src/Server/Room.antt =====
-- The limits of the tiers on locations, folders and spots through every sequence of requests to apps/api/src.
use omnia_note.Prelude.{
  ℕ, ◌≡◌, refl, Bool, Option, none, some, List, [], ◌∷◌, arith, ◌==◌, inl, inr, Option-cases,
  Bool-cases, insert, count, find_first, update_first, find_first-insert-some, find_first-inserted,
  find_first-insert,
}
use omnia_note.Shared.Tiers.{tier_limits}
use omnia_note.World.{Uuid, User, Account, Item, Location, Folder, Spot, World, find_account}
use omnia_note.Locations
use omnia_note.Locations.Limits.{Within}
use omnia_note.Server.Frames.{Statement}
use omnia_note.Server.Stability.{IsStable}

abbrev with_id : Uuid → Account → Bool
with_id id a = a.id == id

abbrev at : Uuid → Location → Bool
at id l = l.id == id

-- The locations of an account; there are none where there is no account.
abbrev LocationRoom : Option Account → ℕ → Type 0
LocationRoom none n = n ≡ 0
LocationRoom (some acc) n = Within (tier_limits acc.tier).max_locations n

abbrev ContentRoom : Option Account → ℕ → ℕ → Type 0
ContentRoom none f s = ⊥
ContentRoom (some acc) f s =
    Within (tier_limits acc.tier).max_folders_per_location f
    × Within (tier_limits acc.tier).max_spots_per_location s

-- The folders and spots of a location, whose account exists; there are none where there is no location.
abbrev PlaceRoom : Option Location → List Account → ℕ → ℕ → Type 0
PlaceRoom none as' f s = (f ≡ 0) × (s ≡ 0)
PlaceRoom (some l) as' f s = ContentRoom (find_first (with_id l.account_id) as') f s

-- The account has no more locations than its tier allows, nor the location more folders or spots.
abbrev pub HasPlaceRoom : Uuid → Uuid → World → Type 0
HasPlaceRoom a l w =
    LocationRoom (find_account a w) (count (Locations.locations_of a) w.locations)
    × PlaceRoom (Locations.find_location l w) w.accounts (count (Locations.folders_at l) w.folders)
        (count (Locations.spots_at l) w.spots)

abbrev pub Roomy : Uuid → Uuid → Statement
Roomy a l us as' is ls fs ss =
    LocationRoom (find_first (with_id a) as') (count (Locations.locations_of a) ls)
    × PlaceRoom (find_first (at l) ls) as' (count (Locations.folders_at l) fs)
        (count (Locations.spots_at l) ss)

Within-zero : (limit : Option ℕ) (n : ℕ) → n ≡ 0 → Within limit n
Within-zero none n h = tt
Within-zero (some limit) n h = omega arith

LocationRoom-opened :
    (a n : Uuid) (new : Account) (as' : List Account)
    → LocationRoom (find_first (with_id a) as') n
    → LocationRoom (find_first (with_id a) (insert new as')) n
LocationRoom-opened a n new as' h = elim (Option-cases (find_first (with_id a) as')) [
  | inl missing ↦ elim (Bool-cases (with_id a new)) [
    | inl hit ↦
        rw (find_first-inserted (with_id a) new as' missing hit)
          (Within-zero (tier_limits new.tier).max_locations n (ground arith))
    | inr miss ↦ rw (find_first-insert (with_id a) new as' miss) h
  ]
  | inr (b, e) ↦ rw (find_first-insert-some (with_id a) new as' b e) (ground arith)
]

ContentRoom-opened :
    (a f s : Uuid) (new : Account) (as' : List Account)
    → ContentRoom (find_first (with_id a) as') f s
    → ContentRoom (find_first (with_id a) (insert new as')) f s
ContentRoom-opened a f s new as' h = elim (Option-cases (find_first (with_id a) as')) [
  | inl missing ↦ absurd (ground arith)
  | inr (b, e) ↦ rw (find_first-insert-some (with_id a) new as' b e) (ground arith)
]

PlaceRoom-opened :
    (o : Option Location) (f s : ℕ) (new : Account) (as' : List Account)
    → PlaceRoom o as' f s
    → PlaceRoom o (insert new as') f s
PlaceRoom-opened none f s new as' h = h
PlaceRoom-opened (some l) f s new as' h = ContentRoom-opened l.account_id f s new as' h

-- A change of accounts that keeps their ids and tiers.
abbrev pub KeepsTiers : (Account → Account) → Type 0
KeepsTiers f = (x : Account) → ((f x).tier ≡ x.tier) × ((f x).id ≡ x.id)

module _ (a id : Uuid) (f : Account → Account) (same : KeepsTiers f) where
  abbrev adjust : List Account → List Account
  adjust as' = update_first (λ b. b.id == id) f as'

  LocationRoom-adjusted :
      (n : ℕ) (as' : List Account)
      → LocationRoom (find_first (with_id a) as') n
      → LocationRoom (find_first (with_id a) (adjust as')) n
  unfolding find_first update_first
  LocationRoom-adjusted n [] h = h
  LocationRoom-adjusted n (b ∷ as') h = ground (arith, same b, LocationRoom-adjusted n as')

  ContentRoom-adjusted :
      (n m : ℕ) (as' : List Account)
      → ContentRoom (find_first (with_id a) as') n m
      → ContentRoom (find_first (with_id a) (adjust as')) n m
  unfolding find_first update_first
  ContentRoom-adjusted n m [] h = h
  ContentRoom-adjusted n m (b ∷ as') h = ground (arith, same b, ContentRoom-adjusted n m as')

PlaceRoom-adjusted :
    (o : Option Location) (id n m : ℕ) (f : Account → Account) (as' : List Account)
    → KeepsTiers f
    → PlaceRoom o as' n m
    → PlaceRoom o (update_first (λ b. b.id == id) f as') n m
PlaceRoom-adjusted none id n m f as' same h = h
PlaceRoom-adjusted (some l) id n m f as' same h =
    ContentRoom-adjusted l.account_id id f same n m as' h

pub Roomy-adjusted :
    (a l id : Uuid) (f : Account → Account)
    → KeepsTiers f
    → (us : List User) (as' : List Account) (is : List Item) (ls : List Location) (fs : List Folder)
      (ss : List Spot)
    → Roomy a l us as' is ls fs ss
    → Roomy a l us (update_first (λ b. b.id == id) f as') is ls fs ss
Roomy-adjusted a l id f same us as' is ls fs ss (h, p) = (
  LocationRoom-adjusted a id f same _ as' h,
  PlaceRoom-adjusted (find_first (at l) ls) id _ _ f as' same p,
)

pub Roomy-IsStable : (a l : Uuid) → IsStable (Roomy a l)
Roomy-IsStable a l = record {
  joined = λ u us as' is ls fs ss h. h;
  opened = λ new us as' is ls fs ss empty (h, p).
      (LocationRoom-opened a _ new as' h, PlaceRoom-opened (find_first (at l) ls) _ _ new as' p);
  adjusted = λ id f us as' is ls fs ss same h. h;
  renamed = λ id name us as' is ls fs ss (h, p).
      Roomy-adjusted a l id (λ b. record b { name = some name }) (λ b. (refl, refl)) us as' is ls fs
        ss (h, p);
}

pub PlaceRoom-inserted :
    (l f s : Uuid) (new : Location) (b : Account) (ls : List Location) (as' : List Account)
    → find_first (with_id new.account_id) as' ≡ some b
    → PlaceRoom (find_first (at l) ls) as' f s
    → PlaceRoom (find_first (at l) (insert new ls)) as' f s
PlaceRoom-inserted l f s new b ls as' e h = elim (Option-cases (find_first (at l) ls)) [
  | inl missing ↦ elim (Bool-cases (at l new)) [
    | inl hit ↦
        let (no_folder, no_spot) : (f ≡ 0) × (s ≡ 0) = ground arith in
        rw (find_first-inserted (at l) new ls missing hit, e)
          (
            Within-zero (tier_limits b.tier).max_folders_per_location f no_folder,
            Within-zero (tier_limits b.tier).max_spots_per_location s no_spot,
          )
    | inr miss ↦ rw (find_first-insert (at l) new ls miss) h
  ]
  | inr (k, there) ↦ rw (find_first-insert-some (at l) new ls k there) (ground arith)
]
