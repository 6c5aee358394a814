-- ===== src/Machine/Credentials/Issued.antt =====
-- `insert_machine_credential` followed by `verify_machine_credential`.
use keylo.Base.Results.{ok_or-eq-ok}
use mathlib.Core.Path.{subst}
use keylo.Base.Results.{Result, ok, err, ◌>>=◌, ok_or, bind-holds}
use keylo.Base.{
  ℕ, String, Bool, true, false, ◌||◌, Option, some, List, [], ◌∷◌, ◌++◌, ◌≡◌, refl, arith, ◌==◌,
  eq_refl, any, find, update_where, if◌then◌else◌,
}
use keylo.Organizations.Tables.{Principal, Failure, bail, constraint_violation}
use keylo.Machine.ApiKey.{key_prefix, api_key}
use keylo.Base.Text.{IsHex32}
use keylo.Machine.ApiKey.RoundTrip.{parse_raw_api_key_iff}
use keylo.Machine.Tables.{MachineCredential, Db}
use keylo.Machine.Scope.{
  scope_row, normalize_organization_id, lock_machine_principal_scope,
  machine_principal_context_is_active,
}
use keylo.Machine.Scope.Agreement.{lock-IsInScope}
use keylo.Machine.Credentials.{
  CreateMachineCredentialParams, FreshKey, MachineCredentialInfo, machine_credential_from_row,
  MachineCredentialSecretResponse, new_credential, insert_row, insert_machine_credential,
}
use keylo.Machine.Verification.{
  authorized, is_unexpired, is_currently_valid, used, verify_row, verify_parsed,
  verify_machine_credential,
}

module _ (verify : String → String → Option Bool) (now : ℕ) (fresh : FreshKey)
    (params : CreateMachineCredentialParams) (db : Db) where
  -- The text of the key is accepted in these tables at this moment.
  abbrev pub IsAccepted : ℕ → String → String → MachineCredentialSecretResponse → Db → Type 0
  IsAccepted later scope audience response db' =
      (i : MachineCredentialInfo) × (p : Principal) × (db'' : Db) × (verify_machine_credential
          verify later response.api_key scope audience db'
        ≡ ok (authorized i p, db''))

  abbrev Works : ℕ → String → String → MachineCredentialSecretResponse → Db → Type 0
  Works later scope audience response db' =
      is_unexpired later params.expires_at ≡ true
      → any (λ s. s == scope) params.allowed_scopes ≡ true
      → any (λ a. a == audience || a == "*") params.allowed_audiences ≡ true
      → ((h : String) → fresh.hashed ≡ some h → verify fresh.secret h ≡ some true)
      → IsAccepted later scope audience response db'

  module _ (later : ℕ) (scope audience : String) (key : IsHex32 fresh.key_id)
      (secret : IsHex32 fresh.secret) where
    unfoldable Issues : Result (MachineCredentialSecretResponse × Db) Failure → Type 0
    Issues (err e) = Unit
    Issues (ok (response, db')) = Works later scope audience response db'

    step_issue :
        {A : Type 0} (r : Result A Failure)
        (rest : A → Result (MachineCredentialSecretResponse × Db) Failure)
        → ((x : A) → r ≡ ok x → Issues (rest x))
        → Issues (r >>= rest)
    unfolding Issues
    step_issue r rest = bind-holds Issues (λ e. tt) r rest

    find-new :
        (cs : List MachineCredential) (c : MachineCredential)
        → any (λ r. r.key_id == c.key_id) cs ≡ false
        → find (λ r. r.key_id == c.key_id) (cs ++ c ∷ []) ≡ some c
    find-new [] c new = ground (arith, eq_refl c.key_id)
    find-new (r ∷ cs) c new = ground (arith, find-new cs c)

    -- The context does not read the keys.
    added-live :
        (p : Principal) (organization_id : Option String) (cs : List MachineCredential)
        → machine_principal_context_is_active db p organization_id ≡ true
        → machine_principal_context_is_active
            (record db { machine_credentials = cs })
            p
            organization_id
          ≡ true
    unfolding machine_principal_context_is_active scope_row
    added-live p organization_id cs live = live

    added-Works :
        (organization_id : Option String) (p : Principal) (hash : String)
        → find (λ q. q.id == params.principal_id) db.directory.principals ≡ some p
        → p.active ≡ true
        → machine_principal_context_is_active db p organization_id ≡ true
        → fresh.hashed ≡ some hash
        → let c = new_credential now fresh.key_id hash organization_id params in
          any (λ r. r.key_id == c.key_id) db.machine_credentials ≡ false
          → Works later scope audience
              (record {
                credential = machine_credential_from_row c;
                api_key = api_key (key_prefix fresh.key_id) fresh.secret;
              })
              (record db { machine_credentials = db.machine_credentials ++ c ∷ [] })
    unfolding verify_machine_credential verify_parsed verify_row
    added-Works organization_id p hash found active live hashed new alive scoped heard matches =
        let c = new_credential now fresh.key_id hash organization_id params in
        let db' = record db { machine_credentials = db.machine_credentials ++ c ∷ [] } in
        let raw = api_key (key_prefix fresh.key_id) fresh.secret in
        let read = (parse_raw_api_key_iff raw fresh.key_id fresh.secret).1 (refl, key, secret) in
        let row = find-new db.machine_credentials c new in
        let live' = added-live p organization_id (db.machine_credentials ++ c ∷ []) live in
        let valid : is_currently_valid later scope audience db' c p ≡ true =
          simp (alive, scoped, heard, active, live') in
        (
          record (machine_credential_from_row c) { last_used_at = some later },
          p,
          record db' {
            machine_credentials =
                update_where (λ r. r.key_id == c.key_id) (used later) db'.machine_credentials;
          },
          rw (read, row, found, matches hash hashed, valid) refl,
        )

    guarded-Issues :
        (refused : Bool) (response : MachineCredentialSecretResponse) (new : Db)
        → (refused ≡ false → Works later scope audience response new)
        → Issues
            ((if refused then err constraint_violation else ok new) >>= λ db'. ok (response, db'))
    unfolding Issues
    guarded-Issues true response new works = tt
    guarded-Issues false response new works = works refl

    insert_row-Issues :
        (c : MachineCredential) (response : MachineCredentialSecretResponse)
        → (any (λ r. r.key_id == c.key_id) db.machine_credentials ≡ false
            → Works later scope audience response
                (record db { machine_credentials = db.machine_credentials ++ c ∷ [] }))
        → Issues (insert_row c db >>= λ db'. ok (response, db'))
    unfolding insert_row Issues
    insert_row-Issues c response works =
        guarded-Issues _ response
          (record db { machine_credentials = db.machine_credentials ++ c ∷ [] })
          (λ fine. works (ground (arith, fine)))

    insert-Issues : Issues (insert_machine_credential now fresh params db)
    unfolding insert_machine_credential
    insert-Issues =
        step_issue (normalize_organization_id params.organization_id) _ λ organization_id _.
          step_issue (lock_machine_principal_scope db params.principal_id organization_id) _
            λ s locked. step_issue (ok_or (bail "bcrypt") fresh.hashed) _ λ hash hashed.
              let (found, active, live, _) =
                lock-IsInScope db params.principal_id organization_id s locked in
              insert_row-Issues (new_credential now fresh.key_id hash organization_id params) _ (
                added-Works organization_id s.principal hash found active live
                  (ok_or-eq-ok _ _ hashed))

  -- A key that is issued works: in the tables as the issue left them, at any moment before its
  -- expiry, its text is accepted for every scope and audience that it was issued for, when the hash of
  -- its secret verifies and its identifier and secret are 32 hexadecimal digits each.
  pub insert-IsAccepted :
      (later : ℕ) (scope audience : String) (response : MachineCredentialSecretResponse) (db' : Db)
      → IsHex32 fresh.key_id
      → IsHex32 fresh.secret
      → insert_machine_credential now fresh params db ≡ ok (response, db')
      → is_unexpired later params.expires_at ≡ true
      → any (λ s. s == scope) params.allowed_scopes ≡ true
      → any (λ a. a == audience || a == "*") params.allowed_audiences ≡ true
      → ((h : String) → fresh.hashed ≡ some h → verify fresh.secret h ≡ some true)
      → IsAccepted later scope audience response db'
  unfolding Issues
  insert-IsAccepted later scope audience response db' key secret done unexpired in_scope in_audience
        good =
      subst (Issues later scope audience key secret) done
        (insert-Issues later scope audience key secret) unexpired in_scope in_audience good
