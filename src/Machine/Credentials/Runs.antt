-- ===== src/Machine/Credentials/Runs.antt =====
-- Any sequence of the operations on API keys, with changes by the rest of the program to the other
-- tables.
use keylo.Base.Results.{Result, ok, err}
use keylo.Base.{ℕ, ◌+◌, String, Bool, false, Option, none, some, List, [], ◌∷◌, ◌==◌, if◌then◌else◌}
use keylo.Organizations.Tables.{Failure}
use keylo.Machine.Tables.{Db}
use keylo.Machine.Credentials.{
  CreateMachineCredentialParams, RotateMachineCredentialParams, FreshKey, MachineCredentialInfo,
  insert_machine_credential, rotate_machine_credential, revoke_machine_credential_in_scope,
  create_machine_credential_as_organization_manager,
  rotate_machine_credential_as_organization_manager,
  revoke_machine_credential_as_organization_manager,
}
use keylo.Machine.Verification.{
  MachineCredentialVerification, authorized, invalid, verify_machine_credential,
}

pub data Op : Type 0 where
  create : ℕ → FreshKey → CreateMachineCredentialParams → Op
  rotate : ℕ → FreshKey → RotateMachineCredentialParams → Op
  revoke : ℕ → String → Option String → String → Option String → Op
  create_as : ℕ → String → String → FreshKey → CreateMachineCredentialParams → Op
  rotate_as : ℕ → String → String → FreshKey → RotateMachineCredentialParams → Op
  revoke_as : ℕ → String → String → String → String → Option String → Op
  verify_key : ℕ → String → String → String → Op
  -- Other writers: every table but the keys becomes that of the argument.
  others : Db → Op

-- The tables after a transaction that may fail.
abbrev pub after : {A : Type 0} → Db → Result (A × Db) Failure → Db
after db (ok (a, db')) = db'
after db (err e) = db

abbrev pub accepted_of :
    Db → Result (MachineCredentialVerification × Db) Failure → Option MachineCredentialInfo × Db
accepted_of db (ok (authorized i p, db')) = (some i, db')
accepted_of db (ok (invalid, db')) = (none, db')
accepted_of db (err e) = (none, db)

abbrev pub is_key : String → Option MachineCredentialInfo → Bool
is_key k none = false
is_key k (some i) = i.key_id == k

module _ (verify : String → String → Option Bool) where
  -- The key that an operation accepted, if it is a verification that did, and the tables after it.
  unfoldable pub perform : Op → Db → Option MachineCredentialInfo × Db
  perform (create now fresh p) db = (none, after db (insert_machine_credential now fresh p db))
  perform (rotate now fresh p) db = (none, after db (rotate_machine_credential now fresh p db))
  perform (revoke now principal_id o k reason) db =
      (none, (revoke_machine_credential_in_scope now principal_id o k reason db).1)
  perform (create_as now o actor fresh p) db =
      (none, after db (create_machine_credential_as_organization_manager now o actor fresh p db))
  perform (rotate_as now o actor fresh p) db =
      (none, after db (rotate_machine_credential_as_organization_manager now o actor fresh p db))
  perform (revoke_as now o actor principal_id k reason) db = (
    none,
    after db
        (revoke_machine_credential_as_organization_manager now o actor principal_id k reason db),
  )
  perform (verify_key now raw scope audience) db =
      accepted_of db (verify_machine_credential verify now raw scope audience db)
  perform (others new) db = (none, record new { machine_credentials = db.machine_credentials })

  -- How often a run accepts the key `k`.
  unfoldable pub acceptances : String → List Op → Db → ℕ
  acceptances k [] db = 0
  acceptances k (op ∷ ops) db =
      let (i, db') = perform op db in (if is_key k i then 1 else 0) + acceptances k ops db'
