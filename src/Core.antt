-- ===== src/Core.antt =====
-- The tables of the `core` schema that several tenants share: users, their identity documents and
-- cross-platform reports (prisma/schema.prisma, models GlobalUser, KycRegistry and
-- EcosystemSharedReport). Ids are only compared, so
-- numbers stand for the strings; times are milliseconds since the epoch.
use madinaty_ai_core_mesh.Base.{ℕ, Bool, List, Option}
use madinaty_ai_core_mesh.Base.Text.{Text}
use madinaty_ai_core_mesh.Base.Table.{Keyed}

-- The fields of `metadata` that the code reads; `none` is a missing or non-string value.
pub record Profile : Type 0 where
  pub full_name : Option Text
  pub gender : Option Text
  pub birthdate : Option Text
  pub address : Option Text
  pub madinaty_group : Option Text
  pub building_no : Option Text
  pub apt_no : Option Text

pub data Role : Type 0 where
  user provider tenant_admin platform_admin : Role

pub record User : Type 0 where
  pub id : ℕ
  pub phone_number : Text
  pub role : Role
  pub is_verified : Bool
  pub trust_score : ℕ
  pub metadata : Profile
  pub created_at : ℕ

pub data KycStatus : Type 0 where
  pending approved rejected : KycStatus

pub record KycRecord : Type 0 where
  pub id : ℕ
  pub user_id : ℕ
  pub encrypted_id_path : Text
  pub id_number : Text
  pub status : KycStatus
  pub reviewed_at : Option ℕ
  pub created_at : ℕ

pub data IncidentType : Type 0 where
  fraud scam abuse spam impersonation policy_violation other : IncidentType

pub record Report : Type 0 where
  pub id : ℕ
  pub reporter_id : ℕ
  pub offender_id : ℕ
  pub incident_type : IncidentType
  pub severity : ℕ
  pub is_platform_wide_banned : Bool

pub record Core : Type 0 where
  pub users : List User
  pub reports : List Report

instance abbrev pub user_keyed : Keyed User
user_keyed = record { key = λ u. u.id }

instance abbrev pub report_keyed : Keyed Report
report_keyed = record { key = λ r. r.id }

instance abbrev pub kyc_keyed : Keyed KycRecord
kyc_keyed = record { key = λ k. k.id }
