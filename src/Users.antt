-- ===== src/Users.antt =====
-- apps/core-hub/src/modules/users/users.controller.ts: accounts, the profile of the signed-in user
-- and the status of the identity check. The state has the users, the registry of identity documents
-- and the files of the storage provider.
pub mod Kyc
mod Tests
use madinaty_ai_core_mesh.Base.{
  ℕ, Bool, true, false, not, ◌&&◌, List, [], ◌∷◌, ◌++◌, Option, none, some, ◌==◌, if◌then◌else◌,
  is_some, or_else, find_first,
}
use madinaty_ai_core_mesh.Base.Text.{Text, same_text}
use madinaty_ai_core_mesh.Base.Action.{
  Action, pure, throw, gets, modify, or_throw, throw_if, ◌>>=◌, ◌>>◌,
}
use madinaty_ai_core_mesh.Base.Table.{find, update}
use madinaty_ai_core_mesh.Core.{User, Profile, Role, KycRecord, KycStatus, user_keyed}

-- A file name with what the file holds.
abbrev pub Files : Type 0
Files = Text → Option (List ℕ)

pub record Registry : Type 0 where
  pub users : List User
  pub kycs : List KycRecord
  pub files : Files

pub data Error : Type 0 where
  user_not_found kyc_not_found phone_taken invalid_storage_key file_missing decryption_failed :
      Error

-- `findUnique({ where: { phoneNumber } })`
abbrev pub has_phone : Text → User → Bool
has_phone phone u = same_text u.phone_number phone

abbrev pub new_user : ℕ → ℕ → Text → Role → Profile → User
new_user fresh now phone role metadata = record {
  id = fresh;
  phone_number = phone;
  role = role;
  is_verified = false;
  trust_score = 100;
  metadata = metadata;
  created_at = now;
}

abbrev pub no_metadata : Profile
no_metadata = record {
  full_name = none;
  gender = none;
  birthdate = none;
  address = none;
  madinaty_group = none;
  building_no = none;
  apt_no = none;
}

-- `POST /users`. The database refuses a phone number that is there.
unfoldable pub create : ℕ → ℕ → Text → Option Role → Option Profile → Action Error Registry User
create fresh now phone role metadata = do
  taken ← gets λ s. find_first (has_phone phone) s.users
  throw_if (is_some taken) phone_taken
  let row : User = new_user fresh now phone (or_else role Role.user) (or_else metadata no_metadata)
  modify λ s. record s { users = s.users ++ row ∷ [] }
  pure row

-- The defined fields of a request, over those that are there.
abbrev pub over : Option Text → Option Text → Option Text
over none old = old
over (some t) _ = some t

abbrev pub edit_profile : Profile → User → User
edit_profile dto u = record u {
  metadata = record {
    full_name = over dto.full_name u.metadata.full_name;
    gender = over dto.gender u.metadata.gender;
    birthdate = over dto.birthdate u.metadata.birthdate;
    address = over dto.address u.metadata.address;
    madinaty_group = over dto.madinaty_group u.metadata.madinaty_group;
    building_no = over dto.building_no u.metadata.building_no;
    apt_no = over dto.apt_no u.metadata.apt_no;
  };
}

-- `PATCH /users/me/profile`. The ORM refuses the update of a row that is not there.
unfoldable pub update_my_profile : ℕ → Profile → Action Error Registry User
update_my_profile user_id dto = do
  existing ← gets λ s. find user_id s.users
  u ← or_throw existing user_not_found
  modify λ s. record s { users = update user_id (edit_profile dto) s.users }
  pure (edit_profile dto u)

-- `GET /users/:id`
unfoldable pub get : ℕ → Action Error Registry User
get id = do row ← gets λ s. find id s.users; or_throw row user_not_found

pub record KycView : Type 0 where
  pub is_verified : Bool
  pub status : Option KycStatus
  pub submitted_at : Option ℕ
  pub reviewed_at : Option ℕ
  pub full_name : Option Text

abbrev pub is_of_user : ℕ → KycRecord → Bool
is_of_user user_id k = k.user_id == user_id

-- `GET /users/me/kyc-status`; the status `none` is `NOT_SUBMITTED`.
unfoldable pub my_kyc_status : ℕ → Registry → KycView
my_kyc_status user_id s =
    let kyc = find_first (is_of_user user_id) s.kycs in
    let global_user = find user_id s.users in
    record {
      is_verified = elim global_user [ none ↦ false | some u ↦ u.is_verified ];
      status = elim kyc [ none ↦ none | some k ↦ some k.status ];
      submitted_at = elim kyc [ none ↦ none | some k ↦ some k.created_at ];
      reviewed_at = elim kyc [ none ↦ none | some k ↦ k.reviewed_at ];
      full_name = elim global_user [ none ↦ none | some u ↦ u.metadata.full_name ];
    }

abbrev pub set_full_name : Text → User → User
set_full_name name u = record u { metadata = record u.metadata { full_name = some name } }

-- The write of `POST /users/me/kyc` before `KycService.submit`, which `submit_my_kyc` of Users/Kyc
-- adds.
unfoldable pub store_full_name : ℕ → Text → Action Error Registry (Unit {0})
store_full_name user_id name = do
  row ← gets λ s. find user_id s.users
  _ ← or_throw row user_not_found
  modify λ s. record s { users = update user_id (set_full_name name) s.users }
