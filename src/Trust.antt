-- ===== src/Trust.antt =====
-- The cross-platform reputation: libs/trust-score/src/trust-score.calculator.ts and the `compute`
-- and `recalculate` of libs/trust-score/src/trust-score.service.ts.
pub mod Score
mod Tests
use Prim.Native.Nat.{min}
use madinaty_ai_core_mesh.Base.{
  ℕ, ◌+◌, ◌-◌, ◌*◌, ◌/◌, Bool, ◌||◌, List, [], ◌∷◌, Option, leb, ◌==◌, or_else, any, keep_if,
}
use madinaty_ai_core_mesh.Base.Action.{Action, gets, modify, or_throw, pure, ◌>>=◌, ◌>>◌}
use madinaty_ai_core_mesh.Base.Table.{find, update}
use madinaty_ai_core_mesh.Core.{Core, User, Report, user_keyed}

abbrev pub default_base : ℕ
default_base = 100

abbrev pub default_ban_threshold : ℕ
default_ban_threshold = 20

abbrev pub penalty_per_severity : ℕ
penalty_per_severity = 8

abbrev pub age_bonus_per_month : ℕ
age_bonus_per_month = 2

abbrev pub max_age_bonus : ℕ
max_age_bonus = 20

abbrev pub score_max : ℕ
score_max = 100

abbrev pub ms_per_month : ℕ
ms_per_month = 1000 * 60 * 60 * 24 * 30

pub record TrustScoreResult : Type 0 where
  pub score : ℕ
  pub is_banned : Bool
  pub penalty : ℕ
  pub age_bonus : ℕ

-- The `reduce` over the reports. A severity is not negative, so only its upper clamp shows.
unfoldable pub penalty_from : ℕ → List Report → ℕ
penalty_from sum [] = sum
penalty_from sum (r ∷ rs) = penalty_from (sum + min 5 r.severity * penalty_per_severity) rs

-- `-` stops at 0, as the source's `Math.max(0, ...)` does for the months and for the score.
unfoldable pub calculate_trust_score : ℕ → List Report → ℕ → Option ℕ → Option ℕ → TrustScoreResult
calculate_trust_score created_at reports now base ban_threshold =
    let penalty = penalty_from 0 reports in
    let months = (now - created_at) / ms_per_month in
    let age_bonus = min max_age_bonus (months * age_bonus_per_month) in
    let score = min score_max (or_else base default_base + age_bonus - penalty) in
    record {
      score = score;
      is_banned =
          any (λ r. r.is_platform_wide_banned) reports
          || leb score (or_else ban_threshold default_ban_threshold);
      penalty = penalty;
      age_bonus = age_bonus;
    }

pub data Error : Type 0 where
  user_not_found : ℕ → Error

-- The configuration's `trustScore.base` and `trustScore.banThreshold`.
pub record TrustConfig : Type 0 where
  pub base : Option ℕ
  pub ban_threshold : Option ℕ

unfoldable pub compute : TrustConfig → ℕ → ℕ → Action Error Core TrustScoreResult
compute config now user_id = do
  row ← gets λ s. find user_id s.users
  user ← or_throw row (user_not_found user_id)
  reports ← gets λ s. keep_if (λ r. r.offender_id == user_id) s.reports
  pure (calculate_trust_score user.created_at reports now config.base config.ban_threshold)

abbrev pub scored_row : TrustScoreResult → User → User
scored_row r u = record u { trust_score = r.score }

unfoldable pub recalculate : TrustConfig → ℕ → ℕ → Action Error Core TrustScoreResult
unfolding compute
recalculate config now user_id = do
  result ← compute config now user_id
  modify λ s. record s { users = update user_id (scored_row result) s.users }
  pure result
