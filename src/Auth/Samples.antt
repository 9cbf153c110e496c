-- ===== src/Auth/Samples.antt =====
-- A signer of tokens that writes the claims and the expiry into the token, with no signature, and a
-- user who signs in. It satisfies what the theorems on sessions ask of a signer.
use madinaty_ai_core_mesh.Base.{
  ℕ, zero, suc, ◌+◌, ◌*◌, ◌/◌, ◌≡◌, refl, arith, Option, none, some, [], ◌∷◌, ltb, if◌then◌else◌,
}
use madinaty_ai_core_mesh.Base.Text.{Text}
use madinaty_ai_core_mesh.Core.{Role, user, provider, tenant_admin, platform_admin}
use madinaty_ai_core_mesh.Auth.Sessions.{JwtPayload, JwtService}
use madinaty_ai_core_mesh.Auth.Guard.Logout.{IsExpiring, IsStable}
use madinaty_ai_core_mesh.Auth.Guard.SignIn.{Signs}

abbrev pub write_text : Text → Text → Text
write_text [] rest = 0 ∷ rest
write_text (c ∷ s) rest = suc c ∷ write_text s rest

abbrev pub read_text : Text → Text × Text
read_text [] = ([], [])
read_text (zero ∷ rest) = ([], rest)
read_text (suc c ∷ s) = let (t, rest) = read_text s in (c ∷ t, rest)

read-write_text : (s rest : Text) → read_text (write_text s rest) ≡ (s, rest)
read-write_text [] rest = refl
read-write_text (c ∷ s) rest = ground (arith, read-write_text s rest)

abbrev pub role_number : Role → ℕ
role_number user = 0
role_number provider = 1
role_number tenant_admin = 2
role_number platform_admin = 3

abbrev pub numbered_role : ℕ → Role
numbered_role zero = user
numbered_role (suc zero) = provider
numbered_role (suc (suc zero)) = tenant_admin
numbered_role (suc (suc (suc _))) = platform_admin

abbrev pub write_id : Option Text → Text
write_id none = []
write_id (some j) = 0 ∷ j

abbrev pub read_id : Text → Option Text
read_id [] = none
read_id (_ ∷ j) = some j

abbrev pub ten_seconds : ℕ → Text → ℕ
ten_seconds signed _ = signed / 1000 + 10

abbrev pub write_token : ℕ → Text → JwtPayload → Text
write_token signed expires_in p =
    ten_seconds signed expires_in
    ∷ p.sub
    ∷ role_number p.role
    ∷ write_text p.phone_number (write_id p.jti)

abbrev pub payload_of : ℕ → ℕ → ℕ → Text × Text → JwtPayload
payload_of exp sub role (phone, id) = record {
  sub = sub;
  phone_number = phone;
  role = numbered_role role;
  jti = read_id id;
  exp = some exp;
}

abbrev pub read_token : ℕ → Text → Option JwtPayload
read_token now (exp ∷ sub ∷ role ∷ rest) =
    if ltb now (exp * 1000) then some (payload_of exp sub role (read_text rest)) else none
read_token now _ = none

abbrev pub plain_jwt : JwtService
plain_jwt = record { sign = write_token; verify = read_token }

pub plain_jwt-IsExpiring : IsExpiring plain_jwt
plain_jwt-IsExpiring now (exp ∷ sub ∷ role ∷ rest) p e h f = ground arith
plain_jwt-IsExpiring now [] p e h f = absurd (ground arith)
plain_jwt-IsExpiring now (_ ∷ []) p e h f = absurd (ground arith)
plain_jwt-IsExpiring now (_ ∷ _ ∷ []) p e h f = absurd (ground arith)

pub plain_jwt-IsStable : IsStable plain_jwt
plain_jwt-IsStable now later (exp ∷ sub ∷ role ∷ rest) p q h k = ground arith
plain_jwt-IsStable now later [] p q h k = absurd (ground arith)
plain_jwt-IsStable now later (_ ∷ []) p q h k = absurd (ground arith)
plain_jwt-IsStable now later (_ ∷ _ ∷ []) p q h k = absurd (ground arith)

abbrev pub plain_expiry : ℕ → Text → ℕ
plain_expiry = ten_seconds

role-number : (r : Role) → numbered_role (role_number r) ≡ r
role-number user = refl
role-number provider = refl
role-number tenant_admin = refl
role-number platform_admin = refl

id-written : (j : Option Text) → read_id (write_id j) ≡ j
id-written none = refl
id-written (some j) = refl

pub plain_jwt-Signs : Signs plain_jwt plain_expiry
plain_jwt-Signs signed now expires_in p = (
  refl,
  λ live. ground (
    arith,
    live,
    read-write_text p.phone_number (write_id p.jti),
    role-number p.role,
    id-written p.jti,
  ),
)
