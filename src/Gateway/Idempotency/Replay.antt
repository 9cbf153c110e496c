-- ===== src/Gateway/Idempotency/Replay.antt =====
-- What repeated requests with one idempotency key see.
use madinaty_ai_core_mesh.Base.{
  ℕ, ◌+◌, ◌≤◌, ◌≡◌, ◌≢◌, sym, ◌∙◌, subst, arith, inl, inr, Option, none, some, List, [], ◌∷◌, All,
  Option-cases,
}
use madinaty_ai_core_mesh.Base.Text.{Text, text_equality}
use madinaty_ai_core_mesh.Base.Dict.{put_self, put_ne, retain}
use madinaty_ai_core_mesh.Base.Action.{Result, ok, err}
use madinaty_ai_core_mesh.Gateway.Idempotency.{
  IdempotencyRecord, Records, key_in_use, evict_expired, get_record, set_record, remember,
  intercept,
}

-- A request as the interceptor meets it.
pub record Request (S E B : Type 0) : Type 0 where
  pub now : ℕ
  pub later : ℕ
  pub key : Option Text
  pub method : Text
  pub handler : S → Result E (ℕ × B) × S

module _ {B : Type 0} (ttl : ℕ) (key : Text) (old : IdempotencyRecord B) where
  evict_keeps :
      (now : ℕ) (records : Records B)
      → now ≤ old.created_at + ttl
      → records key ≡ some old
      → evict_expired ttl now records key ≡ some old
  unfolding evict_expired retain
  evict_keeps now records early e = ground arith

  put_keeps :
      (later : ℕ) (other : Text) (r : IdempotencyRecord B) (records : Records B)
      → later ≤ old.created_at + ttl
      → records key ≡ some old
      → other ≢ key
      → set_record ttl later other r records key ≡ some old
  unfolding set_record
  put_keeps later other r records early e ne =
      put_ne other key r (evict_expired ttl later records) (λ h. ne (sym h))
      ∙ evict_keeps later records early e

module _ {S E B : Type 0} (ttl : ℕ) where
  abbrev pub serve : Request S E B → Records B × S → Result E (ℕ × B) × (Records B × S)
  serve q = intercept ttl q.now q.later q.key q.method q.handler

  abbrev pub serve_all : List (Request S E B) → Records B × S → Records B × S
  serve_all [] state = state
  serve_all (q ∷ qs) state = serve_all qs (serve q state).1

  -- Both clock reads of the request fall within the record's life.
  abbrev pub IsEarly : IdempotencyRecord B → Request S E B → Type 0
  IsEarly old q = (q.now ≤ old.created_at + ttl) × (q.later ≤ old.created_at + ttl)

  module _ (key : Text) (old : IdempotencyRecord B) where
    remember_keeps :
        (later : ℕ) (other : Text) (records : Records B) (x : Result E (ℕ × B) × S)
        → later ≤ old.created_at + ttl
        → records key ≡ some old
        → other ≢ key
        → (remember ttl later other records x).1.0 key ≡ some old
    unfolding remember
    remember_keeps later other records (ok (status, body), s) early e ne =
        put_keeps ttl key old later other _ records early e ne
    remember_keeps later other records (err x, s) early e ne = e

    serve_keeps :
        (q : Request S E B) (state : Records B × S)
        → IsEarly old q
        → state.0 key ≡ some old
        → (serve q state).1.0 key ≡ some old
    unfolding intercept get_record
    serve_keeps q (records, s) (early, late) e = elim (Option-cases (key_in_use q.key q.method)) [
      | inl unused ↦ ground arith
      | inr (other, used) ↦ elim (Option-cases (evict_expired ttl q.now records other)) [
        | inr (r, there) ↦ ground (arith, evict_keeps ttl key old q.now records early e)
        | inl gone ↦ ground (
          arith,
          remember_keeps q.later other (evict_expired ttl q.now records) (q.handler s) late
              (evict_keeps ttl key old q.now records early e)
              (λ h. ground (
                arith,
                subst (λ k. evict_expired ttl q.now records k ≡ none) h gone,
                evict_keeps ttl key old q.now records early e,
              )),
        )
      ]
    ]

    serve_all_keeps :
        (qs : List (Request S E B)) (state : Records B × S)
        → All (IsEarly old) qs
        → state.0 key ≡ some old
        → (serve_all qs state).0 key ≡ some old
    serve_all_keeps [] state early e = e
    serve_all_keeps (q ∷ qs) state (first, early) e =
        serve_all_keeps qs (serve q state).1 early (serve_keeps q state first e)

    replays :
        (q : Request S E B) (state : Records B × S)
        → IsEarly old q
        → key_in_use q.key q.method ≡ some key
        → state.0 key ≡ some old
        → ((serve q state).0 ≡ ok (old.status, old.body)) × ((serve q state).1.1 ≡ state.1)
    unfolding intercept get_record
    replays q (records, s) early used e = (
      ground (arith, evict_keeps ttl key old q.now records early.0 e),
      ground (arith, evict_keeps ttl key old q.now records early.0 e),
    )

  -- Where the handler of a request with a key has returned, every later request with that key is
  -- answered with the same status and body and runs no handler, whatever other requests come
  -- between, as long as all of them come within the time to live of the first answer.
  pub replay :
      (first q : Request S E B) (qs : List (Request S E B)) (records : Records B) (s t : S)
      (key : Text) (status : ℕ) (body : B)
      → key_in_use first.key first.method ≡ some key
      → evict_expired ttl first.now records key ≡ none
      → first.handler s ≡ (ok (status, body), t)
      → key_in_use q.key q.method ≡ some key
      → All (IsEarly (record { status = status; body = body; created_at = first.later })) (q ∷ qs)
      → let state = serve_all qs (serve first (records, s)).1 in
        ((serve first (records, s)).0 ≡ ok (status, body))
        × ((serve q state).0 ≡ ok (status, body))
        × ((serve q state).1.1 ≡ state.1)
  unfolding intercept get_record remember set_record
  replay first q qs records s t key status body used gone runs again (early, others) =
      let old : IdempotencyRecord B = record {
        status = status;
        body = body;
        created_at = first.later;
      } in
      let kept : (serve first (records, s)).1.0 key ≡ some old = ground (
        arith,
        put_self key old (evict_expired ttl first.later (evict_expired ttl first.now records)),
      ) in
      let there = serve_all_keeps key old qs (serve first (records, s)).1 others kept in
      let answer =
        replays key old q (serve_all qs (serve first (records, s)).1) early again there in
      (ground arith, answer.0, answer.1)
