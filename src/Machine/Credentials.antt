-- ===== src/Machine/Credentials.antt =====
-- API keys: `insert_machine_credential`, rotation and revocation of src/db/machine.rs, each one
-- transaction. A fresh key identifier and secret are arguments, and so is what `bcrypt::hash`
-- returned for the secret.
pub mod Runs
pub mod Dead
pub mod Finality
pub mod Issued
use keylo.Base.Results.{Result, ok, err, ◌>>=◌, ok_or}
use keylo.Base.{
  ℕ, String, Bool, true, false, not, ◌&&◌, ◌||◌, Option, none, some, List, [], ◌∷◌, ◌++◌, ◌==◌, any,
  find, unwrap_or, update_where, if◌then◌else◌,
}
use keylo.Session.Tables.{coalesce, same_text}
use keylo.Organizations.Tables.{Failure, bail, constraint_violation, ensure}
use keylo.Organizations.Managers.{lock_active_organization_manager_target}
use keylo.Machine.ApiKey.{key_prefix, api_key}
use keylo.Machine.Tables.{MachineCredential, Db}
use keylo.Machine.Scope.{normalize_organization_id, lock_machine_principal_scope}

pub record CreateMachineCredentialParams : Type 0 where
  pub principal_id : String
  pub organization_id : Option String
  pub created_by_principal_id : Option String
  pub expires_at : Option ℕ
  pub allowed_scopes : List String
  pub allowed_audiences : List String

pub record RotateMachineCredentialParams : Type 0 where
  pub principal_id : String
  pub organization_id : Option String
  pub key_id : String
  pub created_by_principal_id : Option String
  pub expires_at : Option ℕ
  pub allowed_scopes : Option (List String)
  pub allowed_audiences : Option (List String)

-- A fresh key identifier and secret, and what `bcrypt::hash` returned for the secret.
pub record FreshKey : Type 0 where
  pub key_id : String
  pub secret : String
  pub hashed : Option String

-- What leaves the server of a row: everything but the hash and the revocation.
pub record MachineCredentialInfo : Type 0 where
  pub key_id : String
  pub prefix : String
  pub principal_id : String
  pub organization_id : Option String
  pub status : String
  pub expires_at : Option ℕ
  pub last_used_at : Option ℕ
  pub created_by_principal_id : Option String
  pub allowed_scopes : List String
  pub allowed_audiences : List String
  pub created_at : ℕ
  pub updated_at : ℕ

abbrev pub machine_credential_from_row : MachineCredential → MachineCredentialInfo
machine_credential_from_row c = record {
  key_id = c.key_id;
  prefix = c.prefix;
  principal_id = c.principal_id;
  organization_id = c.organization_id;
  status = c.status;
  expires_at = c.expires_at;
  last_used_at = c.last_used_at;
  created_by_principal_id = c.created_by_principal_id;
  allowed_scopes = c.allowed_scopes;
  allowed_audiences = c.allowed_audiences;
  created_at = c.created_at;
  updated_at = c.updated_at;
}

pub record MachineCredentialSecretResponse : Type 0 where
  pub credential : MachineCredentialInfo
  pub api_key : String

abbrev pub new_credential :
    ℕ → String → String → Option String → CreateMachineCredentialParams → MachineCredential
new_credential now key_id secret_hash organization_id p = record {
  key_id = key_id;
  prefix = key_prefix key_id;
  secret_hash = secret_hash;
  principal_id = p.principal_id;
  organization_id = organization_id;
  status = "active";
  expires_at = p.expires_at;
  last_used_at = none;
  created_by_principal_id = p.created_by_principal_id;
  allowed_scopes = p.allowed_scopes;
  allowed_audiences = p.allowed_audiences;
  revoked_at = none;
  revoke_reason = none;
  created_at = now;
  updated_at = now;
}

abbrev pub is_nonempty : List String → Bool
is_nonempty [] = false
is_nonempty (s ∷ ss) = true

abbrev pub refers : (String → Bool) → Option String → Bool
refers test none = true
refers test (some id) = test id

-- INSERT INTO machine_credentials: the primary key, UNIQUE (prefix), the foreign keys and the CHECKs.
unfoldable pub insert_row : MachineCredential → Db → Result Db Failure
insert_row c db =
    if any (λ r. r.key_id == c.key_id) db.machine_credentials
      || any (λ r. r.prefix == c.prefix) db.machine_credentials
      || not (any (λ p. p.id == c.principal_id) db.directory.principals)
      || not (refers (λ id. any (λ o. o.id == id) db.directory.organizations) c.organization_id)
      || not
          (refers (λ id. any (λ p. p.id == id) db.directory.principals) c.created_by_principal_id)
      || not (is_nonempty c.allowed_scopes)
      || not (is_nonempty c.allowed_audiences)
    then err constraint_violation
    else ok (record db { machine_credentials = db.machine_credentials ++ c ∷ [] })

unfoldable pub insert_machine_credential :
    ℕ
    → FreshKey
    → CreateMachineCredentialParams
    → Db
    → Result (MachineCredentialSecretResponse × Db) Failure
insert_machine_credential now fresh p db =
    normalize_organization_id p.organization_id >>= λ organization_id.
    lock_machine_principal_scope db p.principal_id organization_id >>= λ scope.
    ok_or (bail "bcrypt") fresh.hashed >>= λ secret_hash.
    let c = new_credential now fresh.key_id secret_hash organization_id p in
    insert_row c db >>= λ db'. ok (
      record {
        credential = machine_credential_from_row c;
        api_key = api_key (key_prefix fresh.key_id) fresh.secret;
      },
      db',
    )

abbrev pub in_scope : String → Option String → String → MachineCredential → Bool
in_scope principal_id organization_id key_id c =
    c.key_id == key_id
    && c.principal_id == principal_id
    && same_text c.organization_id organization_id

abbrev pub answered :
    Result (MachineCredentialSecretResponse × Db) Failure
    → Result (Option MachineCredentialSecretResponse × Db) Failure
answered (ok (response, db)) = ok (some response, db)
answered (err e) = err e

-- The existing key, if the scope has it, and the row of its successor.
unfoldable pub rotate_existing :
    ℕ
    → FreshKey
    → RotateMachineCredentialParams
    → Db
    → Option MachineCredential
    → Result (Option MachineCredentialSecretResponse × Db) Failure
rotate_existing now fresh p db none = ok (none, db)
rotate_existing now fresh p db (some existing) =
    if not (existing.status == "active")
    then ok (none, db)
    else answered (
        insert_machine_credential now fresh
          (record {
            principal_id = p.principal_id;
            organization_id = p.organization_id;
            created_by_principal_id = p.created_by_principal_id;
            expires_at = coalesce p.expires_at existing.expires_at;
            allowed_scopes = unwrap_or p.allowed_scopes existing.allowed_scopes;
            allowed_audiences = unwrap_or p.allowed_audiences existing.allowed_audiences;
          })
          db)

unfoldable pub rotate_machine_credential :
    ℕ
    → FreshKey
    → RotateMachineCredentialParams
    → Db
    → Result (Option MachineCredentialSecretResponse × Db) Failure
rotate_machine_credential now fresh p db =
    rotate_existing now fresh p db
      (find (in_scope p.principal_id p.organization_id p.key_id) db.machine_credentials)

abbrev pub revoke_key : ℕ → Option String → MachineCredential → MachineCredential
revoke_key now reason c = record c {
  status = "revoked";
  revoked_at = coalesce c.revoked_at (some now);
  revoke_reason = coalesce c.revoke_reason reason;
  updated_at = now;
}

-- rows_affected() > 0
unfoldable pub revoke_machine_credential_in_scope :
    ℕ → String → Option String → String → Option String → Db → Bool × Db
revoke_machine_credential_in_scope now principal_id organization_id key_id reason db = (
  any (in_scope principal_id organization_id key_id) db.machine_credentials,
  record db {
    machine_credentials =
        update_where (in_scope principal_id organization_id key_id) (revoke_key now reason)
          db.machine_credentials;
  },
)

-- The operations that a manager of the organization delegates, under the manager's lock.
unfoldable pub create_machine_credential_as_organization_manager :
    ℕ
    → String
    → String
    → FreshKey
    → CreateMachineCredentialParams
    → Db
    → Result (MachineCredentialSecretResponse × Db) Failure
create_machine_credential_as_organization_manager now organization_id actor fresh p db =
    normalize_organization_id p.organization_id >>= λ normalized.
    ensure (same_text normalized (some organization_id)) "machine_scope_mismatch" >>= λ _.
    lock_active_organization_manager_target db.directory organization_id actor p.principal_id
    >>= λ _. insert_machine_credential now fresh p db

unfoldable pub rotate_machine_credential_as_organization_manager :
    ℕ
    → String
    → String
    → FreshKey
    → RotateMachineCredentialParams
    → Db
    → Result (Option MachineCredentialSecretResponse × Db) Failure
rotate_machine_credential_as_organization_manager now organization_id actor fresh p db =
    lock_active_organization_manager_target db.directory organization_id actor p.principal_id
    >>= λ _.
        rotate_machine_credential now fresh
          (record p {
            organization_id = some organization_id;
            created_by_principal_id = some actor;
          })
          db

unfoldable pub revoke_machine_credential_as_organization_manager :
    ℕ → String → String → String → String → Option String → Db → Result (Bool × Db) Failure
revoke_machine_credential_as_organization_manager now organization_id actor principal_id key_id
      reason db =
    lock_active_organization_manager_target db.directory organization_id actor principal_id >>= λ _.
    ok (revoke_machine_credential_in_scope now principal_id (some organization_id) key_id reason db)
