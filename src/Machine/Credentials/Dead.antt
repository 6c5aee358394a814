-- ===== src/Machine/Credentials/Dead.antt =====
-- A key that is revoked stays so under each operation.
use mathlib.Core.Path.{subst}
use keylo.Base.Results.{Result, ok, err, ◌>>=◌, ok_or, bind-holds}
use keylo.Base.{
  ℕ, String, Bool, true, false, ◌&&◌, Option, none, some, List, [], ◌∷◌, ◌++◌, ◌≡◌, refl, arith,
  ◌==◌, eq_iff, any, update_where, if◌then◌else◌, Bool-cases, inl, inr, any-append,
}
use keylo.Organizations.Tables.{Failure, bail, constraint_violation}
use keylo.Machine.Tables.{MachineCredential, Db}
use keylo.Machine.Scope.{normalize_organization_id, lock_machine_principal_scope}
use keylo.Machine.Credentials.{
  CreateMachineCredentialParams, RotateMachineCredentialParams, FreshKey,
  MachineCredentialSecretResponse, new_credential, insert_row, insert_machine_credential, in_scope,
  answered, rotate_existing, rotate_machine_credential, revoke_key,
  revoke_machine_credential_in_scope,
}
use keylo.Machine.Credentials.Runs.{after}

module _ (k : String) where
  abbrev pub is_k : MachineCredential → Bool
  is_k c = c.key_id == k

  abbrev pub is_live_k : MachineCredential → Bool
  is_live_k c = c.key_id == k && c.status == "active"

  -- The key is there, and is not active.
  abbrev pub IsDead : Db → Type 0
  IsDead db =
      (any is_k db.machine_credentials ≡ true) × (any is_live_k db.machine_credentials ≡ false)

  pub update-IsDead :
      (test : MachineCredential → Bool) (change : MachineCredential → MachineCredential)
      → ((c : MachineCredential) → is_k (change c) ≡ is_k c)
      → ((c : MachineCredential) → is_live_k c ≡ false → is_live_k (change c) ≡ false)
      → (cs : List MachineCredential)
      → (any is_k (update_where test change cs) ≡ any is_k cs)
        × (any is_live_k cs ≡ false → any is_live_k (update_where test change cs) ≡ false)
  update-IsDead test change same dead [] = (refl, λ e. e)
  update-IsDead test change same dead (c ∷ cs) =
      let (there, off) = update-IsDead test change same dead cs in
      (ground (arith, same c, there), λ e. ground (arith, dead c, off, e))

  added-IsDead :
      (cs : List MachineCredential) (c : MachineCredential)
      → any is_k cs ≡ true
      → any is_live_k cs ≡ false
      → any (λ r. r.key_id == c.key_id) cs ≡ false
      → (any is_k (cs ++ c ∷ []) ≡ true) × (any is_live_k (cs ++ c ∷ []) ≡ false)
  added-IsDead cs c there off new =
      let other : (c.key_id == k) ≡ false = elim (Bool-cases (c.key_id == k)) [
        | inr distinct ↦ distinct
        | inl same ↦
            let name : c.key_id ≡ k = (eq_iff c.key_id k).0 same in
            cc (there, subst (λ x. any (λ r. r.key_id == x) cs ≡ false) name new)
      ] in
      (
        ground (arith, there, any-append is_k cs (c ∷ [])),
        ground (arith, off, other, any-append is_live_k cs (c ∷ [])),
      )

  -- A transaction that keeps a dead key dead.
  abbrev pub Survives : {A : Type 0} → Result (A × Db) Failure → Type 0
  Survives (ok (a, db')) = IsDead db'
  Survives (err e) = Unit

  pub IsDead-after :
      {A : Type 0} (db : Db) (r : Result (A × Db) Failure)
      → IsDead db
      → Survives r
      → IsDead (after db r)
  IsDead-after db (ok (a, db')) dead survives = survives
  IsDead-after db (err e) dead survives = dead

  module _ (db : Db) (dead : IsDead db) where
    guarded-Survives :
        {A : Type 0} (refused : Bool) (answer : A) (new : Db)
        → (refused ≡ false → IsDead new)
        → Survives
            ((if refused then err constraint_violation else ok new) >>= λ db'. ok (answer, db'))
    guarded-Survives true answer new works = tt
    guarded-Survives false answer new works = works refl

    pub insert-Survives :
        (now : ℕ) (fresh : FreshKey) (p : CreateMachineCredentialParams)
        → Survives (insert_machine_credential now fresh p db)
    unfolding insert_machine_credential insert_row
    insert-Survives now fresh p =
        bind-holds Survives (λ e. tt) (normalize_organization_id p.organization_id) _
          λ o _.
            bind-holds Survives (λ e. tt) (lock_machine_principal_scope db p.principal_id o) _
              λ s _.
                bind-holds Survives (λ e. tt) (ok_or (bail "bcrypt") fresh.hashed) _
                  λ h _.
                    let c = new_credential now fresh.key_id h o p in
                    guarded-Survives _ _
                      (record db { machine_credentials = db.machine_credentials ++ c ∷ [] })
                      (λ fine.
                        added-IsDead db.machine_credentials c dead.0 dead.1 (ground (arith, fine)))

    answered-Survives :
        (r : Result (MachineCredentialSecretResponse × Db) Failure)
        → Survives r
        → Survives (answered r)
    answered-Survives (ok (response, db')) survives = survives
    answered-Survives (err e) survives = tt

    rotate_existing-Survives :
        (now : ℕ) (fresh : FreshKey) (p : RotateMachineCredentialParams)
        (existing : Option MachineCredential)
        → Survives (rotate_existing now fresh p db existing)
    unfolding rotate_existing
    rotate_existing-Survives now fresh p none = dead
    rotate_existing-Survives now fresh p (some c) = elim (Bool-cases (c.status == "active")) [
      | inr inactive ↦ rw inactive dead
      | inl active ↦ rw active (answered-Survives _ (insert-Survives now fresh _))
    ]

    pub rotate-Survives :
        (now : ℕ) (fresh : FreshKey) (p : RotateMachineCredentialParams)
        → Survives (rotate_machine_credential now fresh p db)
    unfolding rotate_machine_credential
    rotate-Survives now fresh p = rotate_existing-Survives now fresh p _

    pub revoke-IsDead :
        (now : ℕ) (principal_id : String) (o : Option String) (id : String) (reason : Option String)
        → IsDead (revoke_machine_credential_in_scope now principal_id o id reason db).1
    unfolding revoke_machine_credential_in_scope
    revoke-IsDead now principal_id o id reason =
        let (there, off) =
          update-IsDead (in_scope principal_id o id) (revoke_key now reason) (λ c. refl)
            (λ c off. ground arith) db.machine_credentials in
        (cc (there, dead.0), off dead.1)
