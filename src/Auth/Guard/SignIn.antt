-- ===== src/Auth/Guard/SignIn.antt =====
-- The token that signing in gives, at the guard.
use madinaty_ai_core_mesh.Base.{
  ℕ, ◌*◌, ◌<◌, ◌≡◌, refl, sym, ap, ◌∙◌, subst, arith, inl, inr, false, Option, some, find_first,
  Option-cases,
}
use madinaty_ai_core_mesh.Base.Text.{Text, is_empty}
use madinaty_ai_core_mesh.Base.Action.{ok}
use madinaty_ai_core_mesh.Base.Table.{Distinct, find-first}
use madinaty_ai_core_mesh.Core.{User, user_keyed}
use madinaty_ai_core_mesh.Users.{has_phone}
use madinaty_ai_core_mesh.Auth.Sessions.{
  AuthState, AuthConfig, JwtPayload, JwtService, SignedIn, verify_otp, load_user_profile,
  issue_token, describe_auth_cookie, claims, expires_in_of,
}
use madinaty_ai_core_mesh.Auth.Guard.{
  HeaderValue, token_of, extract_from_cookie, can_activate, principal, access_cookie,
}
use madinaty_ai_core_mesh.Auth.Guard.Access.{IsUnrevoked, can_activate_iff}

-- The signer's token is not empty, and until the second of its expiry it verifies to the claims
-- that were signed.
abbrev pub Signs : JwtService → (ℕ → Text → ℕ) → Type 0
Signs jwt expiry =
    (signed now : ℕ) (expires_in : Text) (p : JwtPayload)
    → (is_empty (jwt.sign signed expires_in p) ≡ false)
      × (now < expiry signed expires_in * 1000
          → jwt.verify now (jwt.sign signed expires_in p)
            ≡ some (record p { exp = some (expiry signed expires_in) }))

-- What `verifyOtp` returned for.
verify_otp_ok :
    (config : AuthConfig) (jwt : JwtService) (now : ℕ) (jti phone code : Text) (s : AuthState)
    (x : SignedIn)
    → (verify_otp config jwt now jti phone code s).0 ≡ ok x
    → (u : User) × (find_first (has_phone phone) s.users ≡ some u)
      × (x.cookie.name ≡ access_cookie)
      × (x.cookie.value ≡ jwt.sign now (expires_in_of config) (claims jti u))
      × ((verify_otp config jwt now jti phone code s).1.users ≡ s.users)
      × ((verify_otp config jwt now jti phone code s).1.deny_list ≡ s.deny_list)
unfolding verify_otp load_user_profile issue_token describe_auth_cookie
verify_otp_ok config jwt now jti phone code s x h =
    elim (Option-cases (find_first (has_phone phone) s.users)) [
      | inl e ↦ absurd (ground arith)
      | inr (u, e) ↦ (u, e, ground arith, ground arith, ground arith, ground arith)
    ]

sends_cookie :
    (cookies : Text → Option Text) (header : HeaderValue) (token : Text)
    → cookies access_cookie ≡ some token
    → is_empty token ≡ false
    → token_of (record { authorization = header; cookies = some cookies }) ≡ some token
unfolding token_of extract_from_cookie
sends_cookie cookies header token e full = ground (arith, e)

-- The cookie that signing in sets lets its user in until its token expires: `verifyOtp` returned,
-- the browser sends the cookie's value under the cookie's name, with any authorization header, for
-- a route that is not public, and the guard lets the request pass as the user who has the phone
-- number, with the claims that were signed. The ids of users are distinct, the id drawn for the
-- token is not denied, and the signer's tokens are not empty and verify until they expire.
pub can_activate-verify_otp :
    (config : AuthConfig) (jwt : JwtService) (expiry : ℕ → Text → ℕ) (now later : ℕ)
    (jti phone code : Text) (s : AuthState) (x : SignedIn) (cookies : Text → Option Text)
    (header : HeaderValue)
    → Signs jwt expiry
    → Distinct s.users
    → IsUnrevoked later (some jti) s.deny_list
    → (verify_otp config jwt now jti phone code s).0 ≡ ok x
    → cookies x.cookie.name ≡ some x.cookie.value
    → later < expiry now (expires_in_of config) * 1000
    → (u : User) × (find_first (has_phone phone) s.users ≡ some u)
      × ((can_activate jwt later false
            (record { authorization = header; cookies = some cookies })
            (verify_otp config jwt now jti phone code s).1).0
          ≡ ok (
              some (
                principal u,
                record (claims jti u) { exp = some (expiry now (expires_in_of config)) },
              )))
can_activate-verify_otp config jwt expiry now later jti phone code s x cookies header signs d fresh
      h e live =
    let (u, found, name, value, users, denied) =
      verify_otp_ok config jwt now jti phone code s x h in
    let token : Text = jwt.sign now (expires_in_of config) (claims jti u) in
    let signed = signs now later (expires_in_of config) (claims jti u) in
    (
      u,
      found,
      (can_activate_iff jwt later false (record { authorization = header; cookies = some cookies })
            (verify_otp config jwt now jti phone code s).1
            (some (
              principal u,
              record (claims jti u) { exp = some (expiry now (expires_in_of config)) },
            ))).1
          (record {
            token = token;
            row = u;
            sent =
                sends_cookie cookies header token (ap cookies (sym name) ∙ e ∙ ap some value)
                  signed.0;
            verified = signed.1 live;
            unrevoked = subst (IsUnrevoked later (some jti)) (sym denied) fresh;
            found = rw users (find-first (has_phone phone) s.users u d found).0;
            same = refl;
          }),
    )
