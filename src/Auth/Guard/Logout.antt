-- ===== src/Auth/Guard/Logout.antt =====
-- What signing out does to a token.
use madinaty_ai_core_mesh.Base.{
  ℕ, ◌*◌, ◌≤◌, ◌<◌, ◌≡◌, refl, sym, ap, ◌∙◌, ◌⊎◌, arith, inl, inr, false, List, [], ◌∷◌, none, some,
  Option-cases,
}
use madinaty_ai_core_mesh.Base.Text.{Text, is_empty, same_text_iff, text_equality}
use madinaty_ai_core_mesh.Base.Dict.{put, delete, retain}
use madinaty_ai_core_mesh.Base.Action.{ok, err}
use madinaty_ai_core_mesh.Auth.DenyList.{DenyList, revoke, is_revoked, sweep_expired}
use madinaty_ai_core_mesh.Auth.DenyList.Refinement.{Op, revokes, asks, sweeps, run}
use madinaty_ai_core_mesh.Auth.Sessions.{
  AuthState, JwtPayload, JwtService, AuthenticatedUser, invalid_token, token_revoked,
}
use madinaty_ai_core_mesh.Auth.Guard.{
  HttpRequest, token_of, authenticate, can_activate, check_revoked, logout, revoke_token,
}
use madinaty_ai_core_mesh.Auth.Guard.Access.{IsAdmitted, can_activate_iff, guarded_err}

-- A token is refused from the second of its `exp` on, and its claims do not change.
abbrev pub IsExpiring : JwtService → Type 0
IsExpiring jwt =
    (now : ℕ) (token : Text) (p : JwtPayload) (exp : ℕ)
    → jwt.verify now token ≡ some p
    → p.exp ≡ some exp
    → now < exp * 1000

abbrev pub IsStable : JwtService → Type 0
IsStable jwt =
    (now later : ℕ) (token : Text) (p q : JwtPayload)
    → jwt.verify now token ≡ some p
    → jwt.verify later token ≡ some q
    → p ≡ q

-- The calls on the deny list from `t` to `end`, at times that do not go back; an id that is revoked
-- again has the expiry it had.
abbrev pub IsSpan : Text → ℕ → ℕ → List (ℕ × Op) → ℕ → Type 0
IsSpan jti exp t [] end = t ≤ end
IsSpan jti exp t ((now, revokes j e) ∷ ops) end =
    (t ≤ now) × (j ≡ jti → e ≡ exp) × IsSpan jti exp now ops end
IsSpan jti exp t ((now, asks j) ∷ ops) end = (t ≤ now) × IsSpan jti exp now ops end
IsSpan jti exp t ((now, sweeps) ∷ ops) end = (t ≤ now) × IsSpan jti exp now ops end

module _ (jti : Text) (exp : ℕ) where
  abbrev IsDenied : ℕ → DenyList → Type 0
  IsDenied t list = t < exp * 1000 → list jti ≡ some (exp * 1000)

  revoke-IsDenied :
      (t now : ℕ) (j : Text) (e : ℕ) (list : DenyList)
      → t ≤ now
      → (j ≡ jti → e ≡ exp)
      → IsDenied t list
      → IsDenied now (revoke now j e list)
  unfolding revoke put
  revoke-IsDenied t now j e list h again d live =
      ground (arith, again, d (omega (arith, h, live)), (same_text_iff jti j).0)

  ask-IsDenied :
      (t now : ℕ) (j : Text) (list : DenyList)
      → t ≤ now
      → IsDenied t list
      → IsDenied now (is_revoked now j list).1
  unfolding is_revoked delete
  ask-IsDenied t now j list h d live =
      ground (arith, d (omega (arith, h, live)), (same_text_iff jti j).0)

  sweep-IsDenied :
      (t now : ℕ) (list : DenyList)
      → t ≤ now
      → IsDenied t list
      → IsDenied now (sweep_expired now list)
  unfolding sweep_expired retain
  sweep-IsDenied t now list h d live = ground (arith, d (omega (arith, h, live)))

  run-IsDenied :
      (t : ℕ) (ops : List (ℕ × Op)) (end : ℕ) (list : DenyList)
      → IsSpan jti exp t ops end
      → IsDenied t list
      → IsDenied end (run ops list).1
  unfolding run
  run-IsDenied t [] end list h d = λ live. d (omega (arith, h, live))
  run-IsDenied t ((now, revokes j e) ∷ ops) end list (h, again, span) d =
      run-IsDenied now ops end (revoke now j e list) span (revoke-IsDenied t now j e list h again d)
  run-IsDenied t ((now, asks j) ∷ ops) end list (h, span) d =
      run-IsDenied now ops end (is_revoked now j list).1 span (ask-IsDenied t now j list h d)
  run-IsDenied t ((now, sweeps) ∷ ops) end list (h, span) d =
      run-IsDenied now ops end (sweep_expired now list) span (sweep-IsDenied t now list h d)

logout-IsDenied :
    (now exp : ℕ) (jti : Text) (p : JwtPayload) (s : AuthState)
    → p.jti ≡ some jti
    → is_empty jti ≡ false
    → p.exp ≡ some exp
    → IsDenied jti exp now (logout now (some p) s).deny_list
unfolding logout revoke_token revoke put
logout-IsDenied now exp jti p s e full f live = ground (arith, e, f, (same_text_iff jti jti).1 refl)

refuses :
    (jwt : JwtService) (now exp : ℕ) (jti token : Text) (r : HttpRequest) (s : AuthState)
    (p : JwtPayload)
    → token_of r ≡ some token
    → jwt.verify now token ≡ some p
    → p.jti ≡ some jti
    → is_empty jti ≡ false
    → now < exp * 1000
    → s.deny_list jti ≡ some (exp * 1000)
    → (can_activate jwt now false r s).0 ≡ err token_revoked
unfolding authenticate check_revoked is_revoked
refuses jwt now exp jti token r s p e f g full live listed =
    guarded_err jwt now r s token_revoked (ground arith)

rejects :
    (jwt : JwtService) (now : ℕ) (token : Text) (r : HttpRequest) (s : AuthState)
    → token_of r ≡ some token
    → jwt.verify now token ≡ none
    → (can_activate jwt now false r s).0 ≡ err invalid_token
unfolding authenticate
rejects jwt now token r s e f = guarded_err jwt now r s invalid_token (ground arith)

-- A token with which a user was let in and then signed out is never accepted again: after the
-- sign-out and any calls on the deny list (revocations, look-ups, sweeps) at times that do not go
-- back, a request that carries it, for a route that is
-- not public, is refused as revoked or as invalid, whatever became of the
-- users. The signer refuses a token that has expired and reads the same claims from it each time,
-- the token has an id that is not empty and an expiry, and no call revokes that id with another
-- expiry.
pub logout-can_activate :
    (jwt : JwtService) (before out now exp : ℕ) (jti : Text) (r r' : HttpRequest)
    (s at_logout s' : AuthState) (u : AuthenticatedUser) (p : JwtPayload) (ops : List (ℕ × Op))
    → IsExpiring jwt
    → IsStable jwt
    → (can_activate jwt before false r s).0 ≡ ok (some (u, p))
    → p.jti ≡ some jti
    → is_empty jti ≡ false
    → p.exp ≡ some exp
    → token_of r' ≡ token_of r
    → IsSpan jti exp out ops now
    → let after = record s' { deny_list = (run ops (logout out (some p) at_logout).deny_list).1 } in
      ((can_activate jwt now false r' after).0 ≡ err token_revoked)
      ⊎ ((can_activate jwt now false r' after).0 ≡ err invalid_token)
logout-can_activate jwt before out now exp jti r r' s at_logout s' u p ops expiring stable h e full
      f same span =
    elim (Option-cases (jwt.verify now admitted.token)) [
      | inl g ↦ inr (rejects jwt now admitted.token r' after sent g)
      | inr (q, g) ↦ inl (refused q g)
    ]
  where
    after : AuthState
    after = record s' { deny_list = (run ops (logout out (some p) at_logout).deny_list).1 }

    admitted : IsAdmitted jwt before r s u p
    admitted = (can_activate_iff jwt before false r s (some (u, p))).0 h

    sent : token_of r' ≡ some admitted.token
    sent = same ∙ admitted.sent

    refused :
        (q : JwtPayload)
        → jwt.verify now admitted.token ≡ some q
        → (can_activate jwt now false r' after).0 ≡ err token_revoked
    refused q g = refuses jwt now exp jti admitted.token r' after p sent again e full live (
        run-IsDenied jti exp out ops now (logout out (some p) at_logout).deny_list span
          (logout-IsDenied out exp jti p at_logout e full f) live)
      where
        again : jwt.verify now admitted.token ≡ some p
        again = g ∙ ap some (sym (stable before now admitted.token p q admitted.verified g))

        live : now < exp * 1000
        live = expiring now admitted.token p exp again f
