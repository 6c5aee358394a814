-- ===== src/Machine/Tables.antt =====
-- The rows that the statements on machine identities read and write. Times are Unix seconds; NOW() is
-- an argument of each transaction.
use keylo.Base.{ℕ, String, Bool, Option, List}
use keylo.Organizations.Tables as Organizations

-- The columns of service_clients that these statements read.
pub record ServiceClient : Type 0 where
  pub service_id : String
  pub scope_kind : String
  pub organization_id : Option String
  pub active : Bool

-- device_principal_scopes
pub record DeviceScope : Type 0 where
  pub principal_id : String
  pub scope_kind : String
  pub organization_id : Option String

-- machine_credentials
pub record MachineCredential : Type 0 where
  pub key_id : String
  pub prefix : String
  pub secret_hash : String
  pub principal_id : String
  pub organization_id : Option String
  pub status : String
  pub expires_at : Option ℕ
  pub last_used_at : Option ℕ
  pub created_by_principal_id : Option String
  pub allowed_scopes : List String
  pub allowed_audiences : List String
  pub revoked_at : Option ℕ
  pub revoke_reason : Option String
  pub created_at : ℕ
  pub updated_at : ℕ

-- The tables of organizations, principals and memberships stand in `directory`.
pub record Db : Type 0 where
  pub directory : Organizations.Db
  pub service_clients : List ServiceClient
  pub device_principal_scopes : List DeviceScope
  pub machine_credentials : List MachineCredential
