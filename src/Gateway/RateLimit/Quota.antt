-- ===== src/Gateway/RateLimit/Quota.antt =====
-- How many requests of one actor the guard lets through in one window.
use Prim.Native.Nat.{min}
use madinaty_ai_core_mesh.Base.{
  ℕ, ◌+◌, ◌-◌, ◌<◌, ◌≡◌, refl, ap, sym, subst, ◌∙◌, arith, inl, inr, Bool, true, false, Option,
  some, leb, List, [], ◌∷◌, bit, count, All, Bool-cases, ◌&&◌,
}
use madinaty_ai_core_mesh.Base.Dict.{put_self, put_ne}
use madinaty_ai_core_mesh.Base.Action.{Result, ok, err}
use madinaty_ai_core_mesh.Gateway.RateLimit.{
  ActorType, ActorKey, Bucket, Buckets, RateLimitTier, RateLimitError, Request, same_key,
  same_key_iff, key_equality, current_bucket, hit, consume, tier_of, resolve_actor_type,
  resolve_actor_key, can_activate,
}

abbrev pub key_of_request : Request → ActorKey
key_of_request r = resolve_actor_key r (resolve_actor_type r)

abbrev pub is_of : ActorKey → ℕ × Request → Bool
is_of k (_, r) = same_key (key_of_request r) k

abbrev pub is_ok : Result RateLimitError (Unit {0}) → Bool
is_ok (ok _) = true
is_ok (err _) = false

module _ (tiers : ActorType → Option RateLimitTier) (fallback : RateLimitTier) where
  -- How many of the requests, each at its time, are the actor's and pass the guard.
  abbrev pub admitted : ActorKey → Buckets → List (ℕ × Request) → ℕ
  admitted k buckets [] = 0
  admitted k buckets ((now, r) ∷ rs) =
      let (outcome, after) = can_activate tiers fallback now now r buckets in
      bit (same_key (key_of_request r) k && is_ok outcome) + admitted k after rs

  abbrev pub quota_of : ActorKey → ℕ
  quota_of k = (tier_of tiers fallback k.actor).max_requests - 1

  abbrev pub bucket_at : ℕ → ActorKey → Buckets → Bucket
  bucket_at now k buckets =
      current_bucket now (tier_of tiers fallback k.actor).window_ms (buckets k)

  -- One request of the actor: the bucket that it leaves, and whether it passes.
  abbrev Answers : ℕ → Request → Buckets → ActorKey → Type 0
  Answers now r buckets k =
      ((can_activate tiers fallback now now r buckets).1 k ≡ some (hit (bucket_at now k buckets)))
      × (is_ok (can_activate tiers fallback now now r buckets).0
          ≡ leb ((bucket_at now k buckets).hits + 1) (quota_of k))

  own_request :
      (now : ℕ) (r : Request) (buckets : Buckets) → Answers now r buckets (key_of_request r)
  unfolding can_activate consume resolve_actor_key
  own_request now r buckets = (
    put_self (key_of_request r) (hit (bucket_at now (key_of_request r) buckets)) buckets,
    ground arith,
  )

  other_request :
      (now : ℕ) (r : Request) (buckets : Buckets) (k : ActorKey)
      → same_key (key_of_request r) k ≡ false
      → (can_activate tiers fallback now now r buckets).1 k ≡ buckets k
  unfolding can_activate consume
  other_request now r buckets k h =
      put_ne (key_of_request r) k _ buckets
        (λ e. ground (arith, (same_key_iff (key_of_request r) k).1 (sym e)))

  -- From a bucket that stays open: the rest of the quota, or all requests if they are fewer.
  admitted_open :
      (k : ActorKey) (rs : List (ℕ × Request)) (buckets : Buckets) (b : Bucket)
      → buckets k ≡ some b
      → All (λ q. q.0 < b.reset_at) rs
      → admitted k buckets rs ≡ min (count (is_of k) rs) (quota_of k - b.hits)
  unfolding current_bucket
  admitted_open k [] buckets b e open_ = omega arith
  admitted_open k ((now, r) ∷ rs) buckets b e (early, later) =
      let after = (can_activate tiers fallback now now r buckets).1 in
      elim (Bool-cases (same_key (key_of_request r) k)) [
        | inl own ↦
            let answer : Answers now r buckets k =
              subst (Answers now r buckets) ((same_key_iff (key_of_request r) k).0 own)
                (own_request now r buckets) in
            let same : bucket_at now k buckets ≡ b = ground arith in
            ground (
              arith,
              answer.0,
              answer.1,
              admitted_open k rs after (hit b) (answer.0 ∙ ap (λ c. some (hit c)) same) later,
            )
        | inr apart ↦
            ground
              (arith, admitted_open k rs after b (other_request now r buckets k apart ∙ e) later)
      ]

  -- The requests of one actor, of any user or address, among those of others, each at its time:
  -- where the actor has no open window at its first request and the others come before that window
  -- ends, the guard lets through all of the actor's requests if they are fewer than the tier's
  -- maximum, and one less than the maximum otherwise.
  pub window_quota :
      (now : ℕ) (r : Request) (rs : List (ℕ × Request)) (buckets : Buckets)
      → (bucket_at now (key_of_request r) buckets).hits ≡ 0
      → All (λ q. q.0 < (bucket_at now (key_of_request r) buckets).reset_at) rs
      → admitted (key_of_request r) buckets ((now, r) ∷ rs)
        ≡ min (count (is_of (key_of_request r)) ((now, r) ∷ rs)) (quota_of (key_of_request r))
  window_quota now r rs buckets first later =
      let answer = own_request now r buckets in
      ground (
        arith,
        answer.1,
        first,
        (same_key_iff (key_of_request r) (key_of_request r)).1 refl,
        admitted_open (key_of_request r) rs (can_activate tiers fallback now now r buckets).1
            (hit (bucket_at now (key_of_request r) buckets)) answer.0 later,
      )
