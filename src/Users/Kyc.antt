-- ===== src/Users/Kyc.antt =====
-- libs/kyc/src/kyc.service.ts, crypto/aes.ts and storage/local-storage.provider.ts: identity
-- documents, encrypted and stored, reviewed, and read back. The cipher and the resolution of a path
-- are parameters.
mod Frame
pub mod Stored
use madinaty_ai_core_mesh.Base.{
  ℕ, Bool, true, false, not, ◌&&◌, List, [], ◌∷◌, ◌++◌, Option, none, some, ◌==◌, if◌then◌else◌,
  find_first, take, drop,
}
use madinaty_ai_core_mesh.Base.Text.{Text, starts_with, text_equality}
use madinaty_ai_core_mesh.Base.Dict.{put}
use madinaty_ai_core_mesh.Base.Action.{
  Action, Result, ok, err, pure, throw, gets, modify, or_throw, throw_if, ◌>>=◌, ◌>>◌,
}
use madinaty_ai_core_mesh.Base.Table.{find, update}
use madinaty_ai_core_mesh.Core.{
  User, KycRecord, KycStatus, user_keyed, kyc_keyed, pending, approved, rejected,
}
use madinaty_ai_core_mesh.Users.{
  Registry, Error, Files, user_not_found, kyc_not_found, invalid_storage_key, file_missing,
  decryption_failed, is_of_user, store_full_name,
}

abbrev pub Bytes : Type 0
Bytes = List ℕ

-- AES-256-GCM of Node: from the key, the initialisation vector and the plain text, the cipher text
-- and its tag; and back, where a tag that does not fit is an error.
pub record Cipher : Type 0 where
  pub seal : Bytes → Bytes → Bytes → Bytes × Bytes
  pub unseal : Bytes → Bytes → Bytes → Bytes → Option Bytes

abbrev pub iv_length : ℕ
iv_length = 12

abbrev pub auth_tag_length : ℕ
auth_tag_length = 16

-- `encryptBuffer`, on the random bytes drawn.
unfoldable pub encrypt_buffer : Cipher → Bytes → Bytes → Bytes → Bytes
encrypt_buffer cipher iv plaintext key =
    let (ciphertext, auth_tag) = cipher.seal key iv plaintext in iv ++ (auth_tag ++ ciphertext)

unfoldable pub decrypt_buffer : Cipher → Bytes → Bytes → Option Bytes
decrypt_buffer cipher blob key =
    let iv = take iv_length blob in
    let auth_tag = take auth_tag_length (drop iv_length blob) in
    let ciphertext = drop auth_tag_length (drop iv_length blob) in
    cipher.unseal key iv auth_tag ciphertext

-- The provider's root, and `resolve(join(root, key))`.
pub record Storage : Type 0 where
  pub root : Text
  pub resolve : Text → Text

unfoldable pub resolve_safe : Storage → Text → Option Text
resolve_safe storage key =
    let target = storage.resolve key in
    if starts_with storage.root target then some target else none

-- `save` returns the key.
unfoldable pub save : Storage → Text → Bytes → Action Error Registry Text
save storage key blob s = elim (resolve_safe storage key) [
  | none ↦ throw invalid_storage_key s
  | some target ↦ pure key (record s { files = put target blob s.files })
]

unfoldable pub read : Storage → Text → Action Error Registry Bytes
read storage key s = elim (resolve_safe storage key) [
  | none ↦ throw invalid_storage_key s
  | some target ↦ or_throw (s.files target) file_missing s
]

pub record KycService : Type 0 where
  pub cipher : Cipher
  pub key : Bytes
  pub storage : Storage

-- What the caller of `submit` draws: the row's id if it is new, the vector, and the storage key,
-- which is the user's id and a random UUID.
pub record Draw : Type 0 where
  pub fresh : ℕ
  pub iv : Bytes
  pub storage_key : Text

abbrev pub new_kyc : ℕ → ℕ → ℕ → Text → Text → KycRecord
new_kyc fresh now user_id id_number path = record {
  id = fresh;
  user_id = user_id;
  encrypted_id_path = path;
  id_number = id_number;
  status = pending;
  reviewed_at = none;
  created_at = now;
}

abbrev pub resubmit : Text → Text → KycRecord → KycRecord
resubmit id_number path k = record k {
  id_number = id_number;
  encrypted_id_path = path;
  status = pending;
  reviewed_at = none;
}

-- `upsert({ where: { userId } })`: the record's id.
unfoldable pub upsert_kyc : ℕ → ℕ → ℕ → Text → Text → Action Error Registry ℕ
upsert_kyc fresh now user_id id_number path s = elim (find_first (is_of_user user_id) s.kycs) [
  | none ↦ pure fresh (record s { kycs = s.kycs ++ new_kyc fresh now user_id id_number path ∷ [] })
  | some k ↦ pure k.id (record s { kycs = update k.id (resubmit id_number path) s.kycs })
]

unfoldable pub submit :
    KycService → Draw → ℕ → ℕ → Text → Bytes → Action Error Registry (ℕ × KycStatus)
submit service draw now user_id id_number document = do
  user ← gets λ s. find user_id s.users
  _ ← or_throw user user_not_found
  stored_path ←
      save service.storage draw.storage_key
        (encrypt_buffer service.cipher draw.iv document service.key)
  id ← upsert_kyc draw.fresh now user_id id_number stored_path
  pure (id, pending)

pub data Decision : Type 0 where
  approve reject : Decision

abbrev pub status_of : Decision → KycStatus
status_of approve = approved
status_of reject = rejected

abbrev pub is_approval : Decision → Bool
is_approval approve = true
is_approval reject = false

abbrev pub review_kyc : ℕ → Decision → KycRecord → KycRecord
review_kyc now decision k = record k { status = status_of decision; reviewed_at = some now }

abbrev pub set_verified : Bool → User → User
set_verified b u = record u { is_verified = b }

-- The user is there: `userId` is a foreign key.
unfoldable pub review : ℕ → ℕ → Decision → Action Error Registry (ℕ × KycStatus)
review now kyc_id decision = do
  row ← gets λ s. find kyc_id s.kycs
  kyc ← or_throw row kyc_not_found
  modify λ s. record s {
    kycs = update kyc_id (review_kyc now decision) s.kycs;
    users = update kyc.user_id (set_verified (is_approval decision)) s.users;
  }
  pure (kyc_id, status_of decision)

unfoldable pub get_decrypted_document : KycService → ℕ → Action Error Registry Bytes
get_decrypted_document service kyc_id = do
  row ← gets λ s. find kyc_id s.kycs
  kyc ← or_throw row kyc_not_found
  blob ← read service.storage kyc.encrypted_id_path
  or_throw (decrypt_buffer service.cipher blob service.key) decryption_failed

-- `POST /users/me/kyc`
unfoldable pub submit_my_kyc :
    KycService → Draw → ℕ → ℕ → Text → Text → Bytes → Action Error Registry (ℕ × KycStatus)
submit_my_kyc service draw now user_id full_name id_number document = do
  _ ← store_full_name user_id full_name
  submit service draw now user_id id_number document
