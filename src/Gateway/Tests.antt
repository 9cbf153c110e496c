-- ===== src/Gateway/Tests.antt =====
-- The gateway's theorems on a tier of two requests and on one key.
use Prim.Native.Nat.{min}
use madinaty_ai_core_mesh.Base.{ℕ, ◌+◌, ◌≡◌, refl, arith, Bool, Option, none, some, [], ◌∷◌, count}
use madinaty_ai_core_mesh.Base.Text.{codes, upper, same_text}
use madinaty_ai_core_mesh.Base.Dict.{no_entries, retain}
use madinaty_ai_core_mesh.Base.Action.{Result, ok}
use madinaty_ai_core_mesh.Gateway.RateLimit.{
  ActorType, RateLimitTier, current_bucket, resolve_actor_type, resolve_actor_key,
}
use madinaty_ai_core_mesh.Gateway.RateLimit
use madinaty_ai_core_mesh.Gateway.RateLimit.Quota.{
  admitted, key_of_request, is_of, quota_of, window_quota,
}
use madinaty_ai_core_mesh.Gateway.Idempotency.{key_in_use, evict_expired}
use madinaty_ai_core_mesh.Gateway.Idempotency.Replay.{Request, serve, serve_all, replay}

abbrev no_tiers : ActorType → Option RateLimitTier
no_tiers _ = none

abbrev two_a_second : RateLimitTier
two_a_second = record { window_ms = 1000; max_requests = 2 }

abbrev visitor : RateLimit.Request
visitor = record { user = none; ip = some (codes "10.0.0.1") }

window_quota_example :
    admitted no_tiers two_a_second
      (key_of_request visitor)
      no_entries
      ((5, visitor) ∷ (6, visitor) ∷ (7, visitor) ∷ [])
    ≡ min
        (count (is_of (key_of_request visitor)) ((5, visitor) ∷ (6, visitor) ∷ (7, visitor) ∷ []))
        (quota_of no_tiers two_a_second (key_of_request visitor))
unfolding current_bucket no_entries RateLimit.tier_of
window_quota_example =
    window_quota no_tiers two_a_second 5 visitor ((6, visitor) ∷ (7, visitor) ∷ []) no_entries refl
      (omega arith, (omega arith, tt))

-- A handler that counts its calls.
abbrev counting : ℕ → Result Bool (ℕ × ℕ) × ℕ
counting n = (ok (200, n), n + 1)

abbrev post : ℕ → Request ℕ Bool ℕ
post t = record {
  now = t;
  later = t + 1;
  key = some (codes "k");
  method = codes "POST";
  handler = counting;
}

replay_example :
    let state =
      serve_all {S = ℕ} {E = Bool} {B = ℕ} 100
        (post 3 ∷ [])
        (serve 100 (post 1) (no_entries, 7)).1 in
    ((serve 100 (post 1) (no_entries, 7)).0 ≡ ok (200, 7))
    × ((serve 100 (post 5) state).0 ≡ ok (200, 7))
    × ((serve 100 (post 5) state).1.1 ≡ state.1)
unfolding key_in_use upper same_text evict_expired retain no_entries
replay_example =
    replay 100 (post 1) (post 5) (post 3 ∷ []) no_entries 7 8 (codes "k") 200 7 refl refl refl refl
      ((omega arith, omega arith), ((omega arith, omega arith), tt))
