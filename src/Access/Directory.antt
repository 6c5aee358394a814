-- ===== src/Access/Directory.antt =====
-- The questions that the middleware asks the database, each one query of src/db/. An answer is
-- `err` when the query fails.
use keylo.Base.{String, Bool, Option}
use keylo.Base.Results.{Result}

pub data Failure : Type 0 where
  query_failed : Failure

abbrev pub Answer : Type 0 → Type 0
Answer A = Result A Failure

pub record PrincipalRow : Type 0 where
  pub id : String
  pub active : Bool

pub record UserRow : Type 0 where
  pub id : String
  pub active : Bool
  pub user_class : String

pub record Directory : Type 0 where
  pub is_token_blacklisted : String → Answer Bool
  pub get_principal_by_id : String → Answer (Option PrincipalRow)
  pub get_user_by_id : String → Answer (Option UserRow)
  pub user_is_platform_admin : String → Answer Bool
  -- The `is_admin` of a client's row.
  pub get_client_auth_info : String → Answer (Option Bool)
  -- Whether the person's TOTP credential is enabled.
  pub totp_enabled : String → Answer Bool
  pub has_recent_mfa_verification : String → String → Answer Bool
  pub service_token_context_is_active : String → Option String → Option String → Answer Bool
  pub service_introspection_allowed : String → Answer Bool
