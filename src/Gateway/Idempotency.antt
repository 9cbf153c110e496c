-- ===== src/Gateway/Idempotency.antt =====
-- libs/gateway/src/idempotency: `InMemoryIdempotencyStrategy` and `IdempotencyInterceptor`. The
-- handler behind the interceptor is an argument: it reads and writes a state, and returns a status
-- and a body or throws.
pub mod Replay
use madinaty_ai_core_mesh.Base.{
  ℕ, ◌+◌, ◌-◌, ◌*◌, Bool, true, false, ◌||◌, ◌&&◌, not, Option, none, some, leb, if◌then◌else◌,
  or_else, is_some, List, [], ◌∷◌,
}
use madinaty_ai_core_mesh.Base.Text.{Text, codes, same_text, upper, text_equality, is_empty}
use madinaty_ai_core_mesh.Base.Dict.{put, retain}
use madinaty_ai_core_mesh.Base.Action.{Result, ok, err}

pub record IdempotencyRecord (B : Type 0) : Type 0 where
  pub status : ℕ
  pub body : B
  pub created_at : ℕ

abbrev pub default_ttl : ℕ
default_ttl = 24 * 60 * 60 * 1000

abbrev pub Records : Type 0 → Type 0
Records B = Text → Option (IdempotencyRecord B)

-- `['POST', 'PUT', 'PATCH']`
abbrev pub is_mutating : Text → Bool
is_mutating method =
    same_text method (codes "POST")
    || same_text method (codes "PUT")
    || same_text method (codes "PATCH")

-- The key of a request to which the interceptor applies: not empty, and with a mutating method.
unfoldable pub key_in_use : Option Text → Text → Option Text
key_in_use none method = none
key_in_use (some key) method =
    if is_empty key || not (is_mutating (upper method)) then none else some key

module _ {B : Type 0} (ttl : ℕ) where
  -- `now - record.createdAt > this.ttlMs` is what evicts.
  abbrev pub is_fresh : ℕ → IdempotencyRecord B → Bool
  is_fresh now r = leb now (r.created_at + ttl)

  unfoldable pub evict_expired : ℕ → Records B → Records B
  evict_expired now records = retain (is_fresh now) records

  -- `get` and `set` of the strategy
  unfoldable pub get_record : ℕ → Text → Records B → Option (IdempotencyRecord B) × Records B
  get_record now key records = (evict_expired now records key, evict_expired now records)

  unfoldable pub set_record : ℕ → Text → IdempotencyRecord B → Records B → Records B
  set_record now key r records = put key r (evict_expired now records)

module _ {S E B : Type 0} (ttl : ℕ) where
  -- What the handler returned is kept, at the clock of the moment; what it threw is not.
  unfoldable pub remember :
      ℕ → Text → Records B → Result E (ℕ × B) × S → Result E (ℕ × B) × (Records B × S)
  remember later key records (ok (status, body), s) = (
    ok (status, body),
    (
      set_record ttl later key (record { status = status; body = body; created_at = later })
          records,
      s,
    ),
  )
  remember later key records (err e, s) = (err e, (records, s))

  -- `intercept`: `now` is the clock at the look-up, and `later` after the handler.
  unfoldable pub intercept :
      ℕ
      → ℕ
      → Option Text
      → Text
      → (S → Result E (ℕ × B) × S)
      → Records B × S
      → Result E (ℕ × B) × (Records B × S)
  intercept now later header method handler (records, s) = elim (key_in_use header method) [
    | none ↦ let (r, t) = handler s in (r, (records, t))
    | some key ↦
        let (existing, kept) = get_record ttl now key records in
        elim existing [
          | some old ↦ (ok (old.status, old.body), (kept, s))
          | none ↦ remember later key kept (handler s)
        ]
  ]
