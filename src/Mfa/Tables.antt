-- ===== src/Mfa/Tables.antt =====
-- The rows of the tables of migrations/ that the statements read and write.
use keylo.Base.{ℕ, String, Option, List}

-- mfa_totp_credentials
pub record MfaTotpCredential : Type 0 where
  pub user_id : String
  pub encrypted_seed : String
  pub enabled_at : Option ℕ
  pub last_verified_step : Option ℕ
  pub created_at : ℕ
  pub updated_at : ℕ

-- mfa_recent_verifications
pub record RecentVerification : Type 0 where
  pub user_id : String
  pub token_jti : String
  pub verified_at : ℕ
  pub expires_at : ℕ

-- mfa_recovery_codes
pub record RecoveryCode : Type 0 where
  pub id : String
  pub user_id : String
  pub code_hash : String
  pub used_at : Option ℕ

pub record Db : Type 0 where
  pub totp_credentials : List MfaTotpCredential
  pub recent_verifications : List RecentVerification
  pub recovery_codes : List RecoveryCode
