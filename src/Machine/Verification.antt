-- ===== src/Machine/Verification.antt =====
-- `verify_machine_credential` of src/db/machine.rs, one transaction; `bcrypt::verify` is a parameter.
pub mod Meaning
use keylo.Base.Results.{Result, ok, ◌>>=◌, ok_or}
use keylo.Base.{
  ℕ, String, Bool, true, not, ◌&&◌, ◌||◌, Option, none, some, [], ◌==◌, any, find, ltb,
  update_where, if◌then◌else◌,
}
use keylo.Organizations.Tables.{Principal, Failure, bail}
use keylo.Machine.ApiKey.{parse_raw_api_key}
use keylo.Machine.Tables.{MachineCredential, Db}
use keylo.Machine.Scope.{machine_principal_context_is_active}
use keylo.Machine.Credentials.{MachineCredentialInfo, machine_credential_from_row}

pub data MachineCredentialVerification : Type 0 where
  authorized : MachineCredentialInfo → Principal → MachineCredentialVerification
  invalid : MachineCredentialVerification

abbrev pub is_unexpired : ℕ → Option ℕ → Bool
is_unexpired now none = true
is_unexpired now (some expires_at) = ltb now expires_at

-- `currently_valid`
abbrev pub is_currently_valid : ℕ → String → String → Db → MachineCredential → Principal → Bool
is_currently_valid now required_scope required_audience db c p =
    c.status == "active"
    && is_unexpired now c.expires_at
    && any (λ scope. scope == required_scope) c.allowed_scopes
    && any (λ audience. audience == required_audience || audience == "*") c.allowed_audiences
    && p.active
    && machine_principal_context_is_active db p c.organization_id

abbrev pub with_principal :
    MachineCredential → Option Principal → Option (MachineCredential × Principal)
with_principal c none = none
with_principal c (some p) = some (c, p)

-- SELECT … INNER JOIN principals … WHERE credential.key_id = …
abbrev pub joined : Db → Option MachineCredential → Option (MachineCredential × Principal)
joined db none = none
joined db (some c) = with_principal c (find (λ p. p.id == c.principal_id) db.directory.principals)

-- SET last_used_at = NOW(), updated_at = NOW()
abbrev pub used : ℕ → MachineCredential → MachineCredential
used now c = record c { last_used_at = some now; updated_at = now }

module _ (verify : String → String → Option Bool) where
  unfoldable pub verify_row :
      ℕ
      → String
      → String
      → String
      → Db
      → Option (MachineCredential × Principal)
      → Result (MachineCredentialVerification × Db) Failure
  verify_row now secret scope audience db none = ok (invalid, db)
  verify_row now secret scope audience db (some (c, p)) =
      ok_or (bail "bcrypt") (verify secret c.secret_hash) >>= λ matches.
      if not matches || not (is_currently_valid now scope audience db c p)
      then ok (invalid, db)
      else ok (
        authorized (record (machine_credential_from_row c) { last_used_at = some now }) p,
        record db {
          machine_credentials =
              update_where (λ r. r.key_id == c.key_id) (used now) db.machine_credentials;
        },
      )

  unfoldable pub verify_parsed :
      ℕ
      → String
      → String
      → Db
      → Option (String × String)
      → Result (MachineCredentialVerification × Db) Failure
  verify_parsed now scope audience db none = ok (invalid, db)
  verify_parsed now scope audience db (some (key_id, secret)) =
      verify_row now secret scope audience db
        (joined db (find (λ c. c.key_id == key_id) db.machine_credentials))

  unfoldable pub verify_machine_credential :
      ℕ → String → String → String → Db → Result (MachineCredentialVerification × Db) Failure
  verify_machine_credential now raw_api_key required_scope required_audience db =
      verify_parsed now required_scope required_audience db (parse_raw_api_key raw_api_key)
