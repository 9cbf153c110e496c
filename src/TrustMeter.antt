-- ===== src/TrustMeter.antt =====
-- apps/core-hub/src/modules/trust-meter/trust-meter.service.ts: the public engagement tiers,
-- derived from the marketplace's tables at the time of the request.
use Prim.Native.Nat.{min}
use madinaty_ai_core_mesh.Base.{
  ℕ, ◌+◌, ◌*◌, Bool, true, false, ◌&&◌, ◌||◌, List, [], ◌∷◌, Option, none, some, leb, ◌==◌,
  if◌then◌else◌, is_some, count, total, keep_if,
}
use madinaty_ai_core_mesh.Base.Int.{ℤ, pos, pos_part, ◌-ℤ◌}
use madinaty_ai_core_mesh.Base.Action.{Action, gets, or_throw, pure, ◌>>=◌}
use madinaty_ai_core_mesh.Base.Table.{find}
use madinaty_ai_core_mesh.Core.{user_keyed}
use madinaty_ai_core_mesh.Souk.{Souk, ListingStatus, Offer, offer_keyed}

pub data Tier : Type 0 where
  new bronze silver gold platinum : Tier

pub record Band : Type 0 where
  pub tier : Tier
  pub lo : ℕ
  pub hi : ℕ

abbrev pub tier_thresholds : List Band
tier_thresholds =
    record { tier = new; lo = 0; hi = 200 }
    ∷ record { tier = bronze; lo = 201; hi = 500 }
    ∷ record { tier = silver; lo = 501; hi = 1000 }
    ∷ record { tier = gold; lo = 1001; hi = 2000 }
    ∷ record { tier = platinum; lo = 2001; hi = 3000 }
    ∷ []

unfoldable pub band_for : List Band → ℕ → Tier
band_for [] points = platinum
band_for (b ∷ bands) points =
    let rest = band_for bands points in if leb b.lo points && leb points b.hi then b.tier else rest

unfoldable pub tier_for : ℕ → Tier
tier_for points = band_for tier_thresholds points

abbrev pub same_tier : Tier → Tier → Bool
same_tier new new = true
same_tier bronze bronze = true
same_tier silver silver = true
same_tier gold gold = true
same_tier platinum platinum = true
same_tier _ _ = false

-- `TIER_THRESHOLDS[findIndex(b => b.tier === tier) + 1]`
unfoldable pub band_after : Tier → List Band → Option Band
band_after tier [] = none
band_after tier (b ∷ []) = none
band_after tier (b ∷ next ∷ bands) =
    let rest = band_after tier (next ∷ bands) in if same_tier b.tier tier then some next else rest

-- The next tier and the points that are missing for it.
unfoldable pub next_tier_info : ℕ → Tier → Option (Tier × ℤ)
next_tier_info points tier = elim (band_after tier tier_thresholds) [
  | none ↦ none
  | some b ↦ some (b.tier, pos b.lo -ℤ pos points)
]

abbrev pub is_sold : ListingStatus → Bool
is_sold ListingStatus.sold = true
is_sold _ = false

abbrev pub is_expired : ListingStatus → Bool
is_expired ListingStatus.expired = true
is_expired _ = false

-- `offer: { OR: [{ buyerId: userId }, { sellerId: userId }] }`
abbrev pub took_part : ℕ → Option Offer → Bool
took_part user none = false
took_part user (some o) = o.buyer_id == user || o.seller_id == user

abbrev pub thirty_days : ℕ
thirty_days = 30 * 24 * 60 * 60 * 1000

-- `count` of handovers, of the listings that were sold and of those that expired, and the
-- severities of the reports.
unfoldable pub derive_total : ℕ → ℕ → Souk → ℕ
derive_total now user s =
    let handover_count =
      count (λ h. is_some h.both_confirmed_at && took_part user (find h.offer_id s.offers))
        s.handovers in
    let sold_fast_count =
      count (λ l. l.seller_id == user && is_sold l.status && leb now (l.created_at + thirty_days))
        s.listings in
    let expired_count = count (λ l. l.seller_id == user && is_expired l.status) s.listings in
    let report_penalty =
      total (λ r. 8 * r.severity) (keep_if (λ r. r.offender_id == user) s.core.reports) in
    min 3000 (
      pos_part
        (pos (handover_count * 10 + sold_fast_count * 5) -ℤ pos (expired_count + report_penalty)))

pub data Error : Type 0 where
  user_not_found : Error

pub record TrustMeterSnapshot : Type 0 where
  pub user_id : ℕ
  pub total_points : ℕ
  pub tier : Tier
  pub tier_reached_at : ℕ
  pub highest_total : ℕ
  pub next_tier : Option (Tier × ℤ)

unfoldable pub get_snapshot : ℕ → ℕ → Action Error Souk TrustMeterSnapshot
get_snapshot now user_id = do
  row ← gets λ s. find user_id s.core.users
  user ← or_throw row user_not_found
  points ← gets λ s. derive_total now user_id s
  pure (record {
    user_id = user_id;
    total_points = points;
    tier = tier_for points;
    tier_reached_at = user.created_at;
    highest_total = points;
    next_tier = next_tier_info points (tier_for points);
  })
