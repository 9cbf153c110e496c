-- ===== src/Trust/Score.antt =====
-- The trust score against its documented formula: range, ban rule, and how a report moves it.
use Prim.Native.Nat.{min}
use madinaty_ai_core_mesh.Base.{
  ℕ, ◌+◌, ◌*◌, ◌≤◌, ◌≡◌, ◌∙◌, ◌⊎◌, inl, inr, ◌↔◌, true, List, [], ◌∷◌, ◌++◌, Option, arith, or_else,
  any,
}
use madinaty_ai_core_mesh.Core.{Report}
use madinaty_ai_core_mesh.Trust.{
  default_ban_threshold, penalty_per_severity, penalty_from, calculate_trust_score,
}

-- Σ(severity * weight)
abbrev pub penalty_sum : List Report → ℕ
penalty_sum [] = 0
penalty_sum (r ∷ rs) = min 5 r.severity * penalty_per_severity + penalty_sum rs

penalty_from-eq : (n : ℕ) (rs : List Report) → penalty_from n rs ≡ n + penalty_sum rs
unfolding penalty_from
penalty_from-eq n [] = omega arith
penalty_from-eq n (r ∷ rs) = omega (arith, penalty_from-eq (n + min 5 r.severity * 8) rs)

penalty_sum-insert :
    (rs ss : List Report) (x : Report) → penalty_sum (rs ++ ss) ≤ penalty_sum (rs ++ x ∷ ss)
penalty_sum-insert [] ss x = omega arith
penalty_sum-insert (r ∷ rs) ss x = omega (arith, penalty_sum-insert rs ss x)

flagged-insert :
    (rs ss : List Report) (x : Report)
    → any (λ r. r.is_platform_wide_banned) (rs ++ ss) ≡ true
    → any (λ r. r.is_platform_wide_banned) (rs ++ x ∷ ss) ≡ true
flagged-insert [] ss x h = ground arith
flagged-insert (r ∷ rs) ss x h = ground (arith, flagged-insert rs ss x)

module _ (created now : ℕ) (base threshold : Option ℕ) where
  -- The score lies in [0, 100], the bonus is at most 20, and the penalty is the sum over the
  -- reports of 8 points for each grade of severity, of which 5 count at most.
  pub calculate_bounds :
      (rs : List Report)
      → let r = calculate_trust_score created rs now base threshold in
        (r.score ≤ 100) × (r.age_bonus ≤ 20) × (r.penalty ≡ penalty_sum rs)
  unfolding calculate_trust_score
  calculate_bounds rs = (omega arith, omega arith, penalty_from-eq 0 rs ∙ omega arith)

  -- A user is banned exactly when some report carries the platform-wide flag or the score is at or
  -- below the threshold.
  is_banned_iff :
      (rs : List Report)
      → let r = calculate_trust_score created rs now base threshold in
        (r.is_banned ≡ true) ↔ (
          (any (λ x. x.is_platform_wide_banned) rs ≡ true)
          ⊎ (r.score ≤ or_else threshold default_ban_threshold))
  unfolding calculate_trust_score
  is_banned_iff rs = (λ h. ground arith, λ h. ground arith)

  -- One more report, wherever it stands in the list, never raises the score.
  pub report_lowers_score :
      (rs ss : List Report) (x : Report)
      → (calculate_trust_score created (rs ++ x ∷ ss) now base threshold).score
        ≤ (calculate_trust_score created (rs ++ ss) now base threshold).score
  unfolding calculate_trust_score
  report_lowers_score rs ss x = omega (
    arith,
    penalty_from-eq 0 (rs ++ ss),
    penalty_from-eq 0 (rs ++ x ∷ ss),
    penalty_sum-insert rs ss x,
  )

  -- One more report, wherever it stands in the list, never lifts a ban.
  pub report_keeps_ban :
      (rs ss : List Report) (x : Report)
      → (calculate_trust_score created (rs ++ ss) now base threshold).is_banned ≡ true
      → (calculate_trust_score created (rs ++ x ∷ ss) now base threshold).is_banned ≡ true
  report_keeps_ban rs ss x h = elim ((is_banned_iff (rs ++ ss)).0 h) [
    | inl flagged ↦ (is_banned_iff (rs ++ x ∷ ss)).1 (inl (flagged-insert rs ss x flagged))
    | inr low ↦
        (is_banned_iff (rs ++ x ∷ ss)).1 (inr (omega (arith, low, report_lowers_score rs ss x)))
  ]
