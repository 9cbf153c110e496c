-- ===== src/Auth/Sessions.antt =====
-- apps/core-hub/src/modules/auth/auth.service.ts: sign-up and sign-in by phone and code, and the
-- tokens and cookies that this gives. The signer of tokens is a parameter.
use madinaty_ai_core_mesh.Base.{
  ℕ, ◌+◌, ◌*◌, ◌-◌, Bool, true, ◌&&◌, List, [], ◌∷◌, ◌++◌, Option, none, some, leb, ◌==◌,
  if◌then◌else◌, is_some, or_else, find_first,
}
use madinaty_ai_core_mesh.Base.Text.{Text, codes, trim}
use madinaty_ai_core_mesh.Base.Action.{Action, ok, err, pure, gets, modify, or_throw, ◌>>=◌, ◌>>◌}
use madinaty_ai_core_mesh.Base.Table.{find}
use madinaty_ai_core_mesh.Core.{User, Profile, Role, KycRecord, KycStatus, user_keyed}
use madinaty_ai_core_mesh.Users.{has_phone, new_user, no_metadata, is_of_user}
use madinaty_ai_core_mesh.Auth.DenyList.{DenyList}
use madinaty_ai_core_mesh.Auth.Otp
use madinaty_ai_core_mesh.Auth.Otp.{Challenge, Settings, Purpose, issue, verify}

pub record AuthenticatedUser : Type 0 where
  pub id : ℕ
  pub phone_number : Text
  pub role : Role

-- The claims; `iat` is not read.
pub record JwtPayload : Type 0 where
  pub sub : ℕ
  pub phone_number : Text
  pub role : Role
  pub jti : Option Text
  pub exp : Option ℕ

-- `signAsync(payload, { expiresIn })` and `verifyAsync`, at a time in milliseconds.
pub record JwtService : Type 0 where
  pub sign : ℕ → Text → JwtPayload → Text
  pub verify : ℕ → Text → Option JwtPayload

pub data Error : Type 0 where
  otp_error : Otp.Error → Error
  no_account user_no_longer_exists user_not_found : Error
  missing_auth_token invalid_token token_revoked subject_no_longer_exists : Error

pub record AuthState : Type 0 where
  pub users : List User
  pub kycs : List KycRecord
  pub challenges : List Challenge
  pub deny_list : DenyList

-- What `ConfigService` holds, with the OTP service's part.
pub record AuthConfig : Type 0 where
  pub otp : Settings
  pub jwt_expires_in : Option Text
  pub is_production : Bool

-- A call of the OTP service.
abbrev with_challenges :
    {A : Type 0} → Action Otp.Error (List Challenge) A → Action Error AuthState A
with_challenges call s =
    let (r, rows) = call s.challenges in
    let after : AuthState = record s { challenges = rows } in
    elim r [ ok a ↦ (ok a, after) | err e ↦ (err (otp_error e), after) ]

-- What one `issue` draws and meets: the row's id, the clock at the throttle and at the writes, the
-- code, and whether the delivery returned.
pub record Sending : Type 0 where
  pub fresh : ℕ
  pub now : ℕ
  pub later : ℕ
  pub code : Text
  pub delivered : Bool

abbrev pub send :
    AuthConfig → Sending → Text → Purpose → Action Otp.Error (List Challenge) (Unit {0})
send config x phone purpose =
    issue config.otp x.fresh x.now x.later phone x.code purpose x.delivered

unfoldable pub register : AuthConfig → ℕ → Sending → Text → Action Error AuthState Text
register config fresh x phone = do
  existing ← gets λ s. find_first (has_phone phone) s.users
  modify λ s.
      if is_some existing
      then s
      else record s { users = s.users ++ new_user fresh x.now phone Role.user no_metadata ∷ [] }
  _ ← with_challenges (send config x phone Purpose.register)
  pure phone

unfoldable pub login : AuthConfig → Sending → Text → Action Error AuthState Text
login config x phone = do
  user ← gets λ s. find_first (has_phone phone) s.users
  _ ← or_throw user no_account
  _ ← with_challenges (send config x phone Purpose.login)
  pure phone

is_digit : ℕ → Bool
is_digit c = leb b'0' c && leb c b'9'

-- The digits at the front of a string, after the value of those before, and what follows them.
scan_digits : ℕ → Text → ℕ × Text
unfolding is_digit
scan_digits n [] = (n, [])
scan_digits n (c ∷ s) =
    let rest = scan_digits (n * 10 + (c - b'0')) s in if is_digit c then rest else (n, c ∷ s)

abbrev one_day : ℕ
one_day = 24 * 3600

in_unit : ℕ → ℕ → ℕ
in_unit n c =
    if c == b's'
    then n
    else if c == b'm'
    then n * 60
    else if c == b'h'
    then n * 3600
    else if c == b'd'
    then n * 86400
    else one_day

seconds_of : ℕ × Text → ℕ
unfolding in_unit
seconds_of (n, []) = n
seconds_of (n, c ∷ []) = in_unit n c
seconds_of (n, _ ∷ _ ∷ _) = one_day

seconds_in : Text → ℕ
unfolding is_digit seconds_of scan_digits
seconds_in [] = one_day
seconds_in (c ∷ s) = if is_digit c then seconds_of (scan_digits 0 (c ∷ s)) else one_day

unfoldable pub parse_expires_in_seconds : Text → ℕ
unfolding seconds_in
parse_expires_in_seconds expires_in = seconds_in (trim expires_in)

abbrev pub expires_in_of : AuthConfig → Text
expires_in_of config = or_else config.jwt_expires_in (codes "24h")

abbrev pub claims : Text → User → JwtPayload
claims jti u = record {
  sub = u.id;
  phone_number = u.phone_number;
  role = u.role;
  jti = some jti;
  exp = none;
}

-- The token, and its lifetime for the cookie.
unfoldable pub issue_token : AuthConfig → JwtService → ℕ → Text → User → Text × ℕ
issue_token config jwt now jti u = (
  jwt.sign now (expires_in_of config) (claims jti u),
  parse_expires_in_seconds (expires_in_of config),
)

pub data SameSite : Type 0 where
  lax none_site : SameSite

pub record AuthCookie : Type 0 where
  pub name : Text
  pub value : Text
  pub max_age_seconds : ℕ
  pub http_only : Bool
  pub secure : Bool
  pub same_site : SameSite
  pub path : Text

abbrev pub auth_cookie_name : Text
auth_cookie_name = codes "madinaty.access"

unfoldable pub describe_auth_cookie : AuthConfig → Text → ℕ → AuthCookie
describe_auth_cookie config token max_age_seconds = record {
  name = auth_cookie_name;
  value = token;
  max_age_seconds = max_age_seconds;
  http_only = true;
  secure = config.is_production;
  same_site = if config.is_production then none_site else lax;
  path = codes "/api";
}

unfoldable pub describe_auth_cookie_delete : AuthConfig → AuthCookie
describe_auth_cookie_delete config = record (describe_auth_cookie config [] 0) {
  max_age_seconds = 0;
}

pub record UserProfile : Type 0 where
  pub id : ℕ
  pub phone_number : Text
  pub role : Role
  pub is_verified : Bool
  pub trust_score : ℕ
  pub metadata : Profile
  pub kyc : Option (KycStatus × Option ℕ)
  pub created_at : ℕ

-- The fields of `metadata` that the code also puts beside it stand in `metadata`.
abbrev pub profile_of : List KycRecord → User → UserProfile
profile_of kycs u = record {
  id = u.id;
  phone_number = u.phone_number;
  role = u.role;
  is_verified = u.is_verified;
  trust_score = u.trust_score;
  metadata = u.metadata;
  kyc = elim (find_first (is_of_user u.id) kycs) [
    | none ↦ none
    | some k ↦ some (k.status, k.reviewed_at)
  ];
  created_at = u.created_at;
}

unfoldable pub load_user_profile : ℕ → Action Error AuthState UserProfile
load_user_profile user_id = do
  row ← gets λ s. find user_id s.users
  user ← or_throw row user_not_found
  gets λ s. profile_of s.kycs user

pub record SignedIn : Type 0 where
  pub token : Text
  pub user : UserProfile
  pub cookie : AuthCookie

unfoldable pub verify_otp :
    AuthConfig → JwtService → ℕ → Text → Text → Text → Action Error AuthState SignedIn
verify_otp config jwt now jti phone code = do
  _ ← with_challenges (verify config.otp now phone code)
  row ← gets λ s. find_first (has_phone phone) s.users
  minimal ← or_throw row user_no_longer_exists
  user ← load_user_profile minimal.id
  let (token, max_age_seconds) = issue_token config jwt now jti minimal
  pure (record {
    token = token;
    user = user;
    cookie = describe_auth_cookie config token max_age_seconds;
  })
