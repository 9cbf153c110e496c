-- ===== src/Gateway/RateLimit.antt =====
-- libs/gateway/src/rate-limit: `InMemoryRateLimitStrategy`, the tiers, and `RateLimitGuard`. Times
-- are milliseconds.
pub mod Quota
use Prim.Native.Nat.{max}
use madinaty_ai_core_mesh.Base.{
  ℕ, ◌+◌, ◌-◌, ◌*◌, ◌/◌, ◌≡◌, ◌↔◌, refl, arith, Bool, true, false, ◌&&◌, ◌||◌, Option, none, some,
  leb, ◌==◌, if◌then◌else◌, or_else, List, [], ◌∷◌,
}
use madinaty_ai_core_mesh.Base.Int.{ℤ, pos, ◌-ℤ◌}
use madinaty_ai_core_mesh.Base.Text.{
  Text, codes, same_text, same_text_iff, upper, text_equality, truthy,
}
use madinaty_ai_core_mesh.Base.Dict.{Equality, put, delete, no_entries}
use madinaty_ai_core_mesh.Base.Action.{Result, ok, err}

pub data ActorType : Type 0 where
  anonymous user business admin internal : ActorType

-- `${actorType}:${id}`: no type's name has a colon, so the string is the pair.
pub record ActorKey : Type 0 where
  pub actor : ActorType
  pub id : Text

pub record Bucket : Type 0 where
  pub hits : ℕ
  pub reset_at : ℕ

abbrev pub Buckets : Type 0
Buckets = ActorKey → Option Bucket

pub record RateLimitEntry : Type 0 where
  pub remaining : ℕ
  pub reset_at : ℕ

pub record RateLimitTier : Type 0 where
  pub window_ms : ℕ
  pub max_requests : ℕ

abbrev pub same_actor : ActorType → ActorType → Bool
same_actor anonymous anonymous = true
same_actor user user = true
same_actor business business = true
same_actor admin admin = true
same_actor internal internal = true
same_actor _ _ = false

abbrev pub same_key : ActorKey → ActorKey → Bool
same_key a b = same_actor a.actor b.actor && same_text a.id b.id

same_actor_iff : (a b : ActorType) → (same_actor a b ≡ true) ↔ (a ≡ b)
same_actor_iff a b = ground arith

pub same_key_iff : (a b : ActorKey) → (same_key a b ≡ true) ↔ (a ≡ b)
same_key_iff a b = (
  λ h. ground (arith, (same_text_iff a.id b.id).0, (same_actor_iff a.actor b.actor).0),
  λ h. ground (arith, (same_text_iff a.id b.id).1, (same_actor_iff a.actor b.actor).1),
)

instance abbrev pub key_equality : Equality ActorKey
key_equality = record { same = same_key; same_iff = same_key_iff }

-- `if (!bucket || now >= bucket.resetAt)`: a new bucket, empty.
unfoldable pub current_bucket : ℕ → ℕ → Option Bucket → Bucket
current_bucket now window_ms none = record { hits = 0; reset_at = now + window_ms }
current_bucket now window_ms (some b) =
    if leb b.reset_at now then record { hits = 0; reset_at = now + window_ms } else b

abbrev pub hit : Bucket → Bucket
hit b = record b { hits = b.hits + 1 }

unfoldable pub consume : ℕ → ActorKey → ℕ → ℕ → Buckets → RateLimitEntry × Buckets
consume now key window_ms max_requests buckets =
    let bucket = hit (current_bucket now window_ms (buckets key)) in
    (
      record { remaining = max 0 (max_requests - bucket.hits); reset_at = bucket.reset_at },
      put key bucket buckets,
    )

-- `reset` and `clear`
unfoldable pub reset : ActorKey → Buckets → Buckets
reset = delete

unfoldable pub clear : Buckets → Buckets
clear _ = no_entries

-- `DEFAULT_TIERS`
unfoldable pub default_tiers : ActorType → Option RateLimitTier
default_tiers anonymous = some (record { window_ms = 60000; max_requests = 30 })
default_tiers user = some (record { window_ms = 60000; max_requests = 60 })
default_tiers business = some (record { window_ms = 60000; max_requests = 120 })
default_tiers admin = some (record { window_ms = 60000; max_requests = 300 })
default_tiers internal = some (record { window_ms = 60000; max_requests = 1000 })

pub record RequestUser : Type 0 where
  pub id : Option Text
  pub role : Option Text

pub record Request : Type 0 where
  pub user : Option RequestUser
  pub ip : Option Text

role_of : Option RequestUser → Option Text
role_of none = none
role_of (some u) = truthy u.role

id_of : Option RequestUser → Option Text
id_of none = none
id_of (some u) = truthy u.id

-- Roles are ASCII, on which `toUpperCase` changes the small letters.
actor_for : Option Text → ActorType
actor_for none = anonymous
actor_for (some role) =
    if same_text (upper role) (codes "ADMIN") || same_text (upper role) (codes "PLATFORM_ADMIN")
    then admin
    else if same_text (upper role) (codes "BUSINESS")
    then business
    else user

unfoldable pub resolve_actor_type : Request → ActorType
unfolding role_of actor_for
resolve_actor_type r = actor_for (role_of r.user)

unfoldable pub resolve_actor_key : Request → ActorType → ActorKey
unfolding id_of
resolve_actor_key r actor = record {
  actor = actor;
  id = or_else (id_of r.user) (or_else r.ip (codes "unknown"));
}

-- `this.tiers[actorType] ?? this.tiers.ANONYMOUS`, where the tiers have an `ANONYMOUS`.
unfoldable pub tier_of :
    (ActorType → Option RateLimitTier) → RateLimitTier → ActorType → RateLimitTier
tier_of tiers fallback actor = or_else (tiers actor) fallback

-- The error carries the seconds of `Retry-After`.
pub data RateLimitError : Type 0 where
  rate_limit_exceeded : ℤ → RateLimitError

-- `Math.ceil((resetAt - now) / 1000)`
unfoldable pub retry_after : ℕ → ℕ → ℤ
retry_after reset_at now =
    if leb now reset_at
    then pos ((reset_at - now + 999) / 1000)
    else pos 0 -ℤ pos ((now - reset_at) / 1000)

-- `canActivate` of a handler that is not marked to skip it: `now` and `later` are the two clock
-- reads.
unfoldable pub can_activate :
    (ActorType → Option RateLimitTier)
    → RateLimitTier
    → ℕ
    → ℕ
    → Request
    → Buckets
    → Result RateLimitError (Unit {0}) × Buckets
can_activate tiers fallback now later r buckets =
    let actor = resolve_actor_type r in
    let tier = tier_of tiers fallback actor in
    let (entry, after) =
      consume now (resolve_actor_key r actor) tier.window_ms tier.max_requests buckets in
    (
      if entry.remaining == 0
          then err (rate_limit_exceeded (retry_after entry.reset_at later))
          else ok tt,
      after,
    )
