-- ===== src/Auth/Tests.antt =====
-- The theorems of authentication on one phone number and one token.
use madinaty_ai_core_mesh.Base.{
  ◌≤◌, ◌≡◌, refl, arith, true, none, List, [], ◌∷◌, ◌++◌, count, or_else,
}
use madinaty_ai_core_mesh.Base.Text.{Text, codes}
use madinaty_ai_core_mesh.Base.Dict.{no_entries}
use madinaty_ai_core_mesh.Base.Action.{ok}
use madinaty_ai_core_mesh.Base.Table.{find}
use madinaty_ai_core_mesh.Auth.DenyList.Refinement
use madinaty_ai_core_mesh.Auth.DenyList.Refinement.{Op, revokes, asks, sweeps, recall, run_refines}
use madinaty_ai_core_mesh.Auth.Otp.{
  Settings, login, issue, verify, enforce_per_phone_throttle, is_dev_bypass,
}
use madinaty_ai_core_mesh.Auth.Otp.Throttle
use madinaty_ai_core_mesh.Auth.Otp.Throttle.{Call, issues, verifies, is_within, run_throttled}
use madinaty_ai_core_mesh.Auth.Otp.Guesses.{verify_all, is_guess, is_success, issue-verify_all}
use madinaty_ai_core_mesh.Auth.Otp.Codes.{verify-issue}

run_refines_example :
    (Refinement.run
      ((1, revokes (codes "a") 5)
        ∷ (2, asks (codes "a"))
        ∷ (9, sweeps)
        ∷ (6000, asks (codes "a"))
        ∷ [])
      no_entries).0
    ≡ recall
        ((1, revokes (codes "a") 5)
          ∷ (2, asks (codes "a"))
          ∷ (9, sweeps)
          ∷ (6000, asks (codes "a"))
          ∷ [])
        no_entries
run_refines_example =
    run_refines
      ((1, revokes (codes "a") 5)
        ∷ (2, asks (codes "a"))
        ∷ (9, sweeps)
        ∷ (6000, asks (codes "a"))
        ∷ [])
      (omega arith, (omega arith, (omega arith, (omega arith, tt))))

abbrev settings : Settings
settings = record {
  otp_ttl_seconds = none;
  otp_max_attempts = none;
  waha_base_url = none;
  waha_api_key = none;
  dev_bypass = none;
  dev_bypass_code = none;
  hash = λ phone code. phone ++ code;
}

abbrev phone : Text
phone = codes "010"

abbrev calls : List Call
calls =
    issues 1 100 100 phone (codes "123456") login true
    ∷ verifies 200 phone (codes "000000")
    ∷ issues 2 300 300 phone (codes "654321") login true
    ∷ []

run_throttled_example :
    (count (is_within phone 60000 400) (Throttle.run settings [] calls) ≤ 1)
    × (count (is_within phone 3600000 400) (Throttle.run settings [] calls) ≤ 5)
run_throttled_example = run_throttled settings calls phone 400 (omega arith, (omega arith, tt))

issue-verify_all_example :
    let answers =
      verify_all settings phone
        ((200, codes "000000") ∷ (300, codes "123456") ∷ [])
        (issue settings 1 100 100 phone (codes "123456") login true []).1 in
    (count is_guess answers ≤ or_else settings.otp_max_attempts 5) × (count is_success answers ≤ 1)
unfolding issue enforce_per_phone_throttle is_dev_bypass find
issue-verify_all_example =
    issue-verify_all settings [] 1 100 100 phone (codes "123456") login true
      ((200, codes "000000") ∷ (300, codes "123456") ∷ []) tt refl refl
      (omega arith, (omega arith, tt)) (refl, (refl, tt))

verify-issue_example :
    (verify settings 200 phone
      (codes "123456")
      (issue settings 1 100 100 phone (codes "123456") login true []).1).0
    ≡ ok true
unfolding issue enforce_per_phone_throttle
verify-issue_example =
    verify-issue settings [] 1 100 100 200 phone (codes "123456") login true tt refl (omega arith)
      (omega arith)
