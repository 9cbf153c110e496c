-- ===== src/Auth/Guard/Tests.antt =====
-- One user signs in, asks, and signs out.
use madinaty_ai_core_mesh.Base.{◌≡◌, ◌⊎◌, ◌↔◌, refl, arith, false, none, some, [], ◌∷◌, find_first}
use madinaty_ai_core_mesh.Base.Text.{Text, codes, same_text}
use madinaty_ai_core_mesh.Base.Dict.{no_entries}
use madinaty_ai_core_mesh.Base.Action.{ok, err}
use madinaty_ai_core_mesh.Base.Table.{find}
use madinaty_ai_core_mesh.Core.{User, Role}
use madinaty_ai_core_mesh.Users.{new_user, no_metadata, has_phone}
use madinaty_ai_core_mesh.Auth.DenyList.{is_revoked}
use madinaty_ai_core_mesh.Auth.DenyList.Refinement.{asks, sweeps, run}
use madinaty_ai_core_mesh.Auth.Otp.{login, verify, verify_against, is_dev_bypass}
use madinaty_ai_core_mesh.Auth.Sessions.{
  AuthState, AuthConfig, JwtPayload, SignedIn, verify_otp, load_user_profile, issue_token,
  describe_auth_cookie, claims, expires_in_of, profile_of, parse_expires_in_seconds, token_revoked,
  invalid_token,
}
use madinaty_ai_core_mesh.Auth.Guard.{
  HttpRequest, absent, token_of, extract_from_cookie, authenticate, can_activate, check_revoked,
  hydrate, principal, logout,
}
use madinaty_ai_core_mesh.Auth.Guard.Access.{IsPassed, can_activate_iff}
use madinaty_ai_core_mesh.Auth.Guard.Logout.{logout-can_activate}
use madinaty_ai_core_mesh.Auth.Guard.SignIn.{can_activate-verify_otp}
use madinaty_ai_core_mesh.Auth.Samples.{
  plain_jwt, plain_expiry, plain_jwt-IsExpiring, plain_jwt-IsStable, plain_jwt-Signs, write_token,
}

abbrev mona : User
mona = new_user 1 0 (codes "010") Role.user no_metadata

abbrev signed_claims : JwtPayload
signed_claims = record (claims (codes "j") mona) { exp = some 10 }

abbrev mona_token : Text
mona_token = write_token 0 (codes "24h") (claims (codes "j") mona)

abbrev asking : HttpRequest
asking = record { authorization = absent; cookies = some (λ _. some mona_token) }

abbrev hub : AuthState
hub = record {
  users = mona ∷ [];
  kycs = [];
  challenges =
      record {
        id = 1;
        phone_number = codes "010";
        code_hash = codes "123456";
        purpose = login;
        expires_at = 300000;
        created_at = 0;
        consumed_at = none;
        attempts = 0;
      }
      ∷ [];
  deny_list = no_entries;
}

can_activate_iff_example :
    ((can_activate plain_jwt 5 false asking hub).0 ≡ ok (some (principal mona, signed_claims)))
    ↔ IsPassed plain_jwt 5 false asking hub (some (principal mona, signed_claims))
can_activate_iff_example =
    can_activate_iff plain_jwt 5 false asking hub (some (principal mona, signed_claims))

logout-can_activate_example :
    let after = record hub {
      deny_list =
          (run
            ((8, asks (codes "j")) ∷ (9, sweeps) ∷ [])
            (logout 7 (some signed_claims) hub).deny_list).1;
    } in
    ((can_activate plain_jwt 20 false asking after).0 ≡ err token_revoked)
    ⊎ ((can_activate plain_jwt 20 false asking after).0 ≡ err invalid_token)
unfolding can_activate authenticate check_revoked hydrate token_of extract_from_cookie is_revoked
    no_entries find
logout-can_activate_example =
    logout-can_activate plain_jwt 5 7 20 10 (codes "j") asking asking hub hub hub (principal mona)
      signed_claims ((8, asks (codes "j")) ∷ (9, sweeps) ∷ []) plain_jwt-IsExpiring
      plain_jwt-IsStable refl refl refl refl refl (omega arith, (omega arith, omega arith))

abbrev config : AuthConfig
config = record {
  otp = record {
    otp_ttl_seconds = none;
    otp_max_attempts = none;
    waha_base_url = none;
    waha_api_key = none;
    dev_bypass = none;
    dev_bypass_code = none;
    hash = λ phone code. code;
  };
  jwt_expires_in = none;
  is_production = false;
}

abbrev signed_in : SignedIn
signed_in = record {
  token = mona_token;
  user = profile_of [] mona;
  cookie = describe_auth_cookie config mona_token (parse_expires_in_seconds (codes "24h"));
}

can_activate-verify_otp_example :
    (u : User) × (find_first (has_phone (codes "010")) hub.users ≡ some u)
    × ((can_activate plain_jwt 5000 false asking
          (verify_otp config plain_jwt 0 (codes "j") (codes "010") (codes "123456") hub).1).0
        ≡ ok (
            some (
              principal u,
              record (claims (codes "j") u) { exp = some (plain_expiry 0 (expires_in_of config)) },
            )))
unfolding verify_otp load_user_profile issue_token describe_auth_cookie verify verify_against
    is_dev_bypass find is_revoked no_entries same_text
can_activate-verify_otp_example =
    can_activate-verify_otp config plain_jwt plain_expiry 0 5000 (codes "j") (codes "010")
      (codes "123456") hub signed_in (λ _. some mona_token) absent plain_jwt-Signs (refl, tt)
      (λ j e. ground arith) refl refl (omega arith)
