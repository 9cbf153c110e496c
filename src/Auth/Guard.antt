-- ===== src/Auth/Guard.antt =====
-- apps/core-hub/src/modules/auth/guards/jwt-auth.guard.ts, which checks the token of a request, and
-- the sign-out of auth.service.ts (`revokeToken`) and auth.controller.ts (`logout`).
pub mod Logout
pub mod Access
pub mod SignIn
mod Tests
use madinaty_ai_core_mesh.Base.{
  ℕ, ◌+◌, ◌*◌, ◌-◌, Bool, true, false, not, ◌&&◌, ◌||◌, List, [], ◌∷◌, ◌++◌, Option, none, some,
  leb, ◌==◌, if◌then◌else◌, is_some, or_else, find_first,
}
use madinaty_ai_core_mesh.Base.Text.{
  Text, codes, same_text, truthy, is_empty, lower, split_on, trim,
}
use madinaty_ai_core_mesh.Base.Action.{
  Action, Result, ok, err, pure, throw, gets, modify, or_throw, throw_if, ◌>>=◌, ◌>>◌,
}
use madinaty_ai_core_mesh.Base.Table.{find, update_where}
use madinaty_ai_core_mesh.Core.{User, Profile, Role, KycRecord, KycStatus, user_keyed}
use madinaty_ai_core_mesh.Users.{has_phone, new_user, no_metadata, is_of_user}
use madinaty_ai_core_mesh.Auth.DenyList.{DenyList, revoke, is_revoked}
use madinaty_ai_core_mesh.Auth.Otp
use madinaty_ai_core_mesh.Auth.Otp.{Challenge, Settings, Purpose, issue, verify}
use madinaty_ai_core_mesh.Auth.Sessions.{
  AuthState, JwtPayload, JwtService, AuthenticatedUser, Error, missing_auth_token, invalid_token,
  token_revoked, subject_no_longer_exists,
}

-- `revokeToken`: nothing where a claim is missing, empty or zero.
unfoldable pub revoke_token : ℕ → Option Text → Option ℕ → DenyList → DenyList
revoke_token now none _ list = list
revoke_token now (some jti) none list = list
revoke_token now (some jti) (some exp) list =
    if is_empty jti || exp == 0 then list else revoke now jti exp list

-- `POST /auth/logout`, on the payload that the guard left on the request.
unfoldable pub logout : ℕ → Option JwtPayload → AuthState → AuthState
logout now none s = s
logout now (some p) s = record s { deny_list = revoke_token now p.jti p.exp s.deny_list }

-- A header: absent, one value or several.
pub data HeaderValue : Type 0 where
  absent : HeaderValue
  single : Text → HeaderValue
  several : List Text → HeaderValue

pub record HttpRequest : Type 0 where
  pub authorization : HeaderValue
  pub cookies : Option (Text → Option Text)

raw_header : HeaderValue → Option Text
raw_header absent = none
raw_header (single t) = truthy (some t)
raw_header (several []) = none
raw_header (several (t ∷ _)) = truthy (some t)

bearer_of : List Text → Option Text
bearer_of [] = none
bearer_of (scheme ∷ []) = none
bearer_of (scheme ∷ token ∷ _) =
    if same_text (lower scheme) (codes "bearer") && not (is_empty token)
    then some (trim token)
    else none

unfoldable pub extract_bearer : HeaderValue → Option Text
unfolding raw_header bearer_of
extract_bearer h = elim (raw_header h) [ none ↦ none | some raw ↦ bearer_of (split_on b' ' raw) ]

-- The name that the guard reads, written out there.
abbrev pub access_cookie : Text
access_cookie = codes "madinaty.access"

unfoldable pub extract_from_cookie : Option (Text → Option Text) → Option Text
extract_from_cookie none = none
extract_from_cookie (some cookies) = truthy (cookies access_cookie)

-- `extractFromCookie(...) ?? extractBearer(...)`, and the test that it is there and not empty.
unfoldable pub token_of : HttpRequest → Option Text
token_of r = elim (extract_from_cookie r.cookies) [
  | none ↦ truthy (extract_bearer r.authorization)
  | some t ↦ some t
]

abbrev pub principal : User → AuthenticatedUser
principal u = record { id = u.id; phone_number = u.phone_number; role = u.role }

-- `if (payload.jti && this.jtiDenyList.isRevoked(payload.jti))`
unfoldable pub check_revoked : ℕ → Option Text → Action Error DenyList (Unit {0})
check_revoked now jti list = elim (truthy jti) [
  | none ↦ pure tt list
  | some j ↦
      let (revoked, after) = is_revoked now j list in
      (if revoked then err token_revoked else ok tt, after)
]

-- The end of `canActivate`: the subject must still exist.
unfoldable pub hydrate : JwtPayload → AuthState → Result Error (AuthenticatedUser × JwtPayload)
hydrate p s = elim (find p.sub s.users) [
  | none ↦ err subject_no_longer_exists
  | some u ↦ ok (principal u, p)
]

abbrev after_check :
    AuthState
    → JwtPayload
    → Result Error (Unit {0}) × DenyList
    → Result Error (AuthenticatedUser × JwtPayload) × AuthState
after_check s p (r, list) =
    let after : AuthState = record s { deny_list = list } in
    elim r [ ok _ ↦ (hydrate p after, after) | err e ↦ (err e, after) ]

-- `canActivate` from the token on: the user and the payload that it puts on the request.
unfoldable pub authenticate :
    JwtService → ℕ → HttpRequest → Action Error AuthState (AuthenticatedUser × JwtPayload)
authenticate jwt now r s = elim (token_of r) [
  | none ↦ throw missing_auth_token s
  | some token ↦ elim (jwt.verify now token) [
    | none ↦ throw invalid_token s
    | some p ↦ after_check s p (check_revoked now p.jti s.deny_list)
  ]
]

-- `canActivate`, where `is_public` is what the reflector finds on the handler or the class: a
-- public route is let through, with nothing on the request.
unfoldable pub can_activate :
    JwtService
    → ℕ
    → Bool
    → HttpRequest
    → Action Error AuthState (Option (AuthenticatedUser × JwtPayload))
can_activate jwt now true r s = pure none s
can_activate jwt now false r s = (authenticate jwt now r >>= λ x. pure (some x)) s
