-- ===== src/Auth/DenyList.antt =====
-- apps/core-hub/src/modules/auth/jti-deny-list.service.ts: the ids of revoked tokens, each with the
-- time in milliseconds at which its token expires.
pub mod Refinement
use madinaty_ai_core_mesh.Base.{
  ℕ, ◌*◌, Bool, true, false, Option, none, some, leb, ltb, if◌then◌else◌,
}
use madinaty_ai_core_mesh.Base.Text.{Text, is_empty, text_equality}
use madinaty_ai_core_mesh.Base.Dict.{put, delete, retain, no_entries}

abbrev pub DenyList : Type 0
DenyList = Text → Option ℕ

unfoldable pub revoke : ℕ → Text → ℕ → DenyList → DenyList
revoke now jti exp list =
    if is_empty jti then list else if leb (exp * 1000) now then list else put jti (exp * 1000) list

-- An expired entry is dropped when it is met.
unfoldable pub is_revoked : ℕ → Text → DenyList → Bool × DenyList
is_revoked now jti list = if is_empty jti then (false, list) else elim (list jti) [
  | none ↦ (false, list)
  | some expires_at ↦ if leb expires_at now then (false, delete jti list) else (true, list)
]

-- `reset`
unfoldable pub reset : DenyList → DenyList
reset _ = no_entries

-- `sweepExpired`, which the timer runs.
unfoldable pub sweep_expired : ℕ → DenyList → DenyList
sweep_expired now list = retain (ltb now) list
