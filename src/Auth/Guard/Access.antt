-- ===== src/Auth/Guard/Access.antt =====
-- Which requests the guard lets pass.
use madinaty_ai_core_mesh.Base.{
  ℕ, ◌≡◌, ◌≢◌, ◌↔◌, ap, ◌∙◌, subst, arith, inl, inr, Bool, true, false, Option, none, some,
  Option-cases,
}
use madinaty_ai_core_mesh.Base.Text.{Text, truthy}
use madinaty_ai_core_mesh.Base.Action.{ok, err}
use madinaty_ai_core_mesh.Base.Table.{find}
use madinaty_ai_core_mesh.Core.{User, user_keyed}
use madinaty_ai_core_mesh.Auth.DenyList.{DenyList, is_revoked}
use madinaty_ai_core_mesh.Auth.Sessions.{
  AuthState, JwtPayload, JwtService, AuthenticatedUser, Error,
}
use madinaty_ai_core_mesh.Auth.Guard.{
  HttpRequest, token_of, authenticate, can_activate, check_revoked, hydrate, principal,
}

-- The payload carries no id that is denied at the time.
abbrev pub IsUnrevoked : ℕ → Option Text → DenyList → Type 0
IsUnrevoked now jti list = (j : Text) → truthy jti ≡ some j → (is_revoked now j list).0 ≡ false

check-IsUnrevoked :
    (now : ℕ) (jti : Option Text) (list : DenyList)
    → (check_revoked now jti list).0 ≡ ok tt
    → IsUnrevoked now jti list
unfolding check_revoked
check-IsUnrevoked now jti list h j e = ground arith

hydrate_ok :
    (p q : JwtPayload) (u : AuthenticatedUser) (s : AuthState)
    → hydrate p s ≡ ok (u, q)
    → (p ≡ q) × ((row : User) × (find p.sub s.users ≡ some row) × (u ≡ principal row))
unfolding hydrate
hydrate_ok p q u s h = elim (Option-cases (find p.sub s.users)) [
  | inl e ↦ absurd (ground arith)
  | inr (row, e) ↦ (ground arith, (row, e, ground arith))
]

check_passed :
    (jwt : JwtService) (now : ℕ) (r : HttpRequest) (s : AuthState) (u : AuthenticatedUser)
    (q p : JwtPayload) (token : Text)
    → token_of r ≡ some token
    → jwt.verify now token ≡ some p
    → (authenticate jwt now r s).0 ≡ ok (u, q)
    → ((check_revoked now p.jti s.deny_list).0 ≡ ok tt)
      × (hydrate p (record s { deny_list = (check_revoked now p.jti s.deny_list).1 }) ≡ ok (u, q))
unfolding authenticate
check_passed jwt now r s u q p token e f h = ground arith

IsUnrevoked-check :
    (now : ℕ) (jti : Option Text) (list : DenyList)
    → IsUnrevoked now jti list
    → (check_revoked now jti list).0 ≡ ok tt
unfolding check_revoked
IsUnrevoked-check now jti list v = elim (Option-cases (truthy jti)) [
  | inl e ↦ ground arith
  | inr (j, e) ↦ ground (arith, v j e)
]

-- A request of a user for whom nothing speaks against it.
pub record IsAdmitted (jwt : JwtService) (now : ℕ) (r : HttpRequest) (s : AuthState)
    (u : AuthenticatedUser) (p : JwtPayload) : Type 0 where
  pub token : Text
  pub row : User
  pub sent : token_of r ≡ some token
  pub verified : jwt.verify now token ≡ some p
  pub unrevoked : IsUnrevoked now p.jti s.deny_list
  pub found : find p.sub s.users ≡ some row
  pub same : u ≡ principal row

module _ (jwt : JwtService) (now : ℕ) (r : HttpRequest) (s : AuthState) (u : AuthenticatedUser)
    (p : JwtPayload) where
  IsAdmitted-verified :
      (token : Text) (q : JwtPayload)
      → token_of r ≡ some token
      → jwt.verify now token ≡ some q
      → (authenticate jwt now r s).0 ≡ ok (u, p)
      → IsAdmitted jwt now r s u p
  IsAdmitted-verified token q e f h =
      let (checked, hydrated) = check_passed jwt now r s u p q token e f h in
      let (same, (row, found, by_row)) =
        hydrate_ok q p u (record s { deny_list = (check_revoked now q.jti s.deny_list).1 })
          hydrated in
      record {
        token = token;
        row = row;
        sent = e;
        verified = f ∙ ap some same;
        unrevoked =
            subst (λ x. IsUnrevoked now x.jti s.deny_list) same
              (check-IsUnrevoked now q.jti s.deny_list checked);
        found = subst (λ x. find x.sub s.users ≡ some row) same found;
        same = by_row;
      }

  refused_without : token_of r ≡ none → (authenticate jwt now r s).0 ≢ ok (u, p)
  unfolding authenticate
  refused_without e h = ground arith

  refused_unverified :
      (token : Text)
      → token_of r ≡ some token
      → jwt.verify now token ≡ none
      → (authenticate jwt now r s).0 ≢ ok (u, p)
  unfolding authenticate
  refused_unverified token e f h = ground arith

  IsAdmitted-ok : IsAdmitted jwt now r s u p → (authenticate jwt now r s).0 ≡ ok (u, p)
  unfolding authenticate hydrate
  IsAdmitted-ok v = ground (
    arith,
    v.sent,
    v.verified,
    v.found,
    v.same,
    IsUnrevoked-check now p.jti s.deny_list v.unrevoked,
  )

  authenticate_iff : ((authenticate jwt now r s).0 ≡ ok (u, p)) ↔ IsAdmitted jwt now r s u p
  authenticate_iff = (
    λ h. elim (Option-cases (token_of r)) [
      | inl e ↦ absurd (refused_without e h)
      | inr (token, e) ↦ elim (Option-cases (jwt.verify now token)) [
        | inl f ↦ absurd (refused_unverified token e f h)
        | inr (q, f) ↦ IsAdmitted-verified token q e f h
      ]
    ],
    IsAdmitted-ok,
  )

  guarded_ok :
      (can_activate jwt now false r s).0 ≡ ok (some (u, p))
      → (authenticate jwt now r s).0 ≡ ok (u, p)
  unfolding can_activate
  guarded_ok h = ground arith

  ok_guarded :
      (authenticate jwt now r s).0 ≡ ok (u, p)
      → (can_activate jwt now false r s).0 ≡ ok (some (u, p))
  unfolding can_activate
  ok_guarded h = ground arith

guarded_some :
    (jwt : JwtService) (now : ℕ) (r : HttpRequest) (s : AuthState)
    → (can_activate jwt now false r s).0 ≢ ok none
unfolding can_activate
guarded_some jwt now r s h = ground arith

pub guarded_err :
    (jwt : JwtService) (now : ℕ) (r : HttpRequest) (s : AuthState) (e : Error)
    → (authenticate jwt now r s).0 ≡ err e
    → (can_activate jwt now false r s).0 ≡ err e
unfolding can_activate
guarded_err jwt now r s e h = ground arith

-- What it takes to pass, and what is then on the request.
abbrev pub IsPassed :
    JwtService
    → ℕ
    → Bool
    → HttpRequest
    → AuthState
    → Option (AuthenticatedUser × JwtPayload)
    → Type 0
IsPassed jwt now true r s x = x ≡ none
IsPassed jwt now false r s none = ⊥
IsPassed jwt now false r s (some (u, p)) = IsAdmitted jwt now r s u p

-- The guard lets every request for a public route pass, with nothing put on it. It lets a request
-- for another route pass, as the user `u` with the claims `p`, exactly when the request carries a
-- token that verifies to `p`, the id of `p` is missing, empty or not revoked, and `u` is the row of
-- the user that `p` names.
pub can_activate_iff :
    (jwt : JwtService) (now : ℕ) (is_public : Bool) (r : HttpRequest) (s : AuthState)
    (x : Option (AuthenticatedUser × JwtPayload))
    → ((can_activate jwt now is_public r s).0 ≡ ok x) ↔ IsPassed jwt now is_public r s x
unfolding can_activate
can_activate_iff jwt now true r s x = (λ h. ground arith, λ h. ground arith)
can_activate_iff jwt now false r s none = (guarded_some jwt now r s, λ h. absurd h)
can_activate_iff jwt now false r s (some (u, p)) = (
  λ h. (authenticate_iff jwt now r s u p).0 (guarded_ok jwt now r s u p h),
  λ v. ok_guarded jwt now r s u p ((authenticate_iff jwt now r s u p).1 v),
)
