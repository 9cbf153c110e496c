-- ===== src/Trust/Tests.antt =====
-- The trust score on two reports.
use madinaty_ai_core_mesh.Base.{◌≤◌, ◌≡◌, refl, true, false, [], ◌∷◌, none}
use madinaty_ai_core_mesh.Core.{Report, fraud, spam}
use madinaty_ai_core_mesh.Trust.{calculate_trust_score}
use madinaty_ai_core_mesh.Trust.Score.{report_lowers_score, report_keeps_ban}

abbrev mild : Report
mild = record {
  id = 1;
  reporter_id = 2;
  offender_id = 3;
  incident_type = spam;
  severity = 2;
  is_platform_wide_banned = false;
}

abbrev grave : Report
grave = record mild { id = 4; incident_type = fraud; severity = 9; is_platform_wide_banned = true }

report_lowers_score_example :
    (calculate_trust_score 0 (mild ∷ grave ∷ []) 1000 none none).score
    ≤ (calculate_trust_score 0 (mild ∷ []) 1000 none none).score
report_lowers_score_example = report_lowers_score 0 1000 none none (mild ∷ []) [] grave

report_keeps_ban_example :
    (calculate_trust_score 0 (mild ∷ grave ∷ []) 1000 none none).is_banned ≡ true
unfolding calculate_trust_score
report_keeps_ban_example = report_keeps_ban 0 1000 none none [] (grave ∷ []) mild refl
