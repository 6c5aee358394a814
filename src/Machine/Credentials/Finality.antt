-- ===== src/Machine/Credentials/Finality.antt =====
-- A key that was revoked is never accepted again, whatever is done to keys, machines and
-- organizations afterwards.
use mathlib.Core.Path.{subst}
use keylo.Base.Results.{ok, bind-holds}
use keylo.Base.{
  ℕ, ◌≤◌, String, Bool, true, false, not, ◌||◌, Option, none, some, List, [], ◌∷◌, ◌≡◌, refl, arith,
  ◌==◌, any, count, find, update_where, if◌then◌else◌, Bool-cases, Option-cases, inl, inr,
}
use keylo.Session.Tables.{same_text}
use keylo.Organizations.Tables.{Principal, ensure}
use keylo.Organizations.Managers.{lock_active_organization_manager_target}
use keylo.Machine.ApiKey.{parse_raw_api_key}
use keylo.Machine.Tables.{MachineCredential, Db}
use keylo.Machine.Scope.{normalize_organization_id}
use keylo.Machine.Credentials.{
  MachineCredentialInfo, machine_credential_from_row, in_scope, revoke_key,
  revoke_machine_credential_in_scope, create_machine_credential_as_organization_manager,
  rotate_machine_credential_as_organization_manager,
  revoke_machine_credential_as_organization_manager,
}
use keylo.Machine.Verification.{
  authorized, invalid, is_currently_valid, with_principal, joined, used, verify_row, verify_parsed,
  verify_machine_credential,
}
use keylo.Machine.Credentials.Runs.{
  Op, create, rotate, revoke, create_as, rotate_as, revoke_as, verify_key, others, accepted_of,
  is_key, perform, acceptances,
}
use keylo.Machine.Credentials.Dead.{
  is_k, is_live_k, IsDead, update-IsDead, Survives, IsDead-after, insert-Survives, rotate-Survives,
  revoke-IsDead,
}

module _ (k : String) where
  module _ (db : Db) (dead : IsDead k db) where
    -- An accepted key is not the dead one, and what is left of the keys is as dead as before.
    abbrev Refused : Option MachineCredentialInfo × Db → Type 0
    Refused (i, db') = (is_key k i ≡ false) × IsDead k db'

    find-live :
        (id : String) (cs : List MachineCredential) (c : MachineCredential)
        → find (λ r. r.key_id == id) cs ≡ some c
        → any (is_live_k k) cs ≡ false
        → is_live_k k c ≡ false
    find-live id [] c found off = cc
    find-live id (r ∷ cs) c found off = elim (Bool-cases (r.key_id == id)) [
      | inr other ↦ find-live id cs c (ground (arith, other, found)) (ground (arith, off))
      | inl here ↦
          let same : some r ≡ some c = ground (arith, here, found) in
          let first : is_live_k k r ≡ false = ground (arith, off) in
          let row : r ≡ c = cc in subst (λ x. is_live_k k x ≡ false) row first
    ]

    matched-Refused :
        (now : ℕ) (scope audience : String) (c : MachineCredential) (p : Principal) (matches : Bool)
        → is_live_k k c ≡ false
        → Refused (
            accepted_of db (
              if not matches || not (is_currently_valid now scope audience db c p)
              then ok (invalid, db)
              else ok (
                authorized (record (machine_credential_from_row c) { last_used_at = some now }) p,
                record db {
                  machine_credentials =
                      update_where (λ r. r.key_id == c.key_id) (used now) db.machine_credentials;
                },
              )))
    matched-Refused now scope audience c p false off = (refl, dead)
    matched-Refused now scope audience c p true off =
        elim (Bool-cases (is_currently_valid now scope audience db c p)) [
          | inr stale ↦ rw stale (refl, dead)
          | inl fine ↦
              let (there, still) =
                update-IsDead k (λ r. r.key_id == c.key_id) (used now) (λ r. refl) (λ r e. e)
                  db.machine_credentials in
              rw fine (ground (arith, off, fine), (cc (there, dead.0), still dead.1))
        ]

    verify_row-Refused :
        (verify : String → String → Option Bool) (now : ℕ) (secret scope audience : String)
        (c : MachineCredential) (p : Option Principal)
        → is_live_k k c ≡ false
        → Refused
            (accepted_of db (verify_row verify now secret scope audience db (with_principal c p)))
    unfolding verify_row
    verify_row-Refused verify now secret scope audience c none off = (refl, dead)
    verify_row-Refused verify now secret scope audience c (some p) off =
        elim (Option-cases (verify secret c.secret_hash)) [
          | inl failed ↦ rw failed (refl, dead)
          | inr (matches, checked) ↦ rw checked (matched-Refused now scope audience c p matches off)
        ]

    joined-Refused :
        (verify : String → String → Option Bool) (now : ℕ) (secret scope audience id : String)
        (row : Option MachineCredential)
        → find (λ r. r.key_id == id) db.machine_credentials ≡ row
        → Refused (accepted_of db (verify_row verify now secret scope audience db (joined db row)))
    unfolding verify_row
    joined-Refused verify now secret scope audience id none found = (refl, dead)
    joined-Refused verify now secret scope audience id (some c) found =
        verify_row-Refused verify now secret scope audience c _
          (find-live id db.machine_credentials c found dead.1)

    parsed-Refused :
        (verify : String → String → Option Bool) (now : ℕ) (scope audience : String)
        (parsed : Option (String × String))
        → Refused (accepted_of db (verify_parsed verify now scope audience db parsed))
    unfolding verify_parsed
    parsed-Refused verify now scope audience none = (refl, dead)
    parsed-Refused verify now scope audience (some (id, secret)) =
        joined-Refused verify now secret scope audience id _ refl

    perform-Refused :
        (verify : String → String → Option Bool) (op : Op) → Refused (perform verify op db)
    unfolding perform verify_machine_credential create_machine_credential_as_organization_manager
        rotate_machine_credential_as_organization_manager
        revoke_machine_credential_as_organization_manager
    perform-Refused verify (create now fresh p) =
        (refl, IsDead-after k db _ dead (insert-Survives k db dead now fresh p))
    perform-Refused verify (rotate now fresh p) =
        (refl, IsDead-after k db _ dead (rotate-Survives k db dead now fresh p))
    perform-Refused verify (revoke now principal_id o id reason) =
        (refl, revoke-IsDead k db dead now principal_id o id reason)
    perform-Refused verify (create_as now o actor fresh p) = (
      refl,
      IsDead-after k db _ dead (
          bind-holds (Survives k) (λ e. tt) (normalize_organization_id p.organization_id) _
            λ n _.
              bind-holds (Survives k) (λ e. tt)
                (ensure (same_text n (some o)) "machine_scope_mismatch") _
                λ _ _.
                  bind-holds (Survives k) (λ e. tt)
                    (lock_active_organization_manager_target db.directory o actor p.principal_id) _
                    λ _ _. insert-Survives k db dead now fresh p),
    )
    perform-Refused verify (rotate_as now o actor fresh p) = (
      refl,
      IsDead-after k db _ dead (
          bind-holds (Survives k) (λ e. tt)
            (lock_active_organization_manager_target db.directory o actor p.principal_id) _
            λ _ _. rotate-Survives k db dead now fresh _),
    )
    perform-Refused verify (revoke_as now o actor principal_id id reason) = (
      refl,
      IsDead-after k db _ dead (
          bind-holds (Survives k) (λ e. tt)
            (lock_active_organization_manager_target db.directory o actor principal_id) _
            λ _ _. revoke-IsDead k db dead now principal_id (some o) id reason),
    )
    perform-Refused verify (verify_key now raw scope audience) =
        parsed-Refused verify now scope audience (parse_raw_api_key raw)
    perform-Refused verify (others new) = (refl, dead)

  dead-acceptances :
      (verify : String → String → Option Bool) (ops : List Op) (db : Db)
      → IsDead k db
      → acceptances verify k ops db ≡ 0
  unfolding acceptances
  dead-acceptances verify [] db dead = refl
  dead-acceptances verify (op ∷ ops) db dead =
      let refused = perform-Refused db dead verify op in
      rw (refused.0, dead-acceptances verify ops (perform verify op db).1 refused.1) refl

  scoped-counts :
      (principal_id : String) (o : Option String) (cs : List MachineCredential)
      → any (in_scope principal_id o k) cs ≡ true
      → 1 ≤ count (is_k k) cs
  scoped-counts principal_id o [] there = cc
  scoped-counts principal_id o (c ∷ cs) there = ground (arith, scoped-counts principal_id o cs)

  none-live :
      (test : MachineCredential → Bool) (now : ℕ) (reason : Option String)
      (cs : List MachineCredential)
      → count (is_k k) cs ≡ 0
      → any (is_live_k k) (update_where test (revoke_key now reason) cs) ≡ false
  none-live test now reason [] none_ = refl
  none-live test now reason (c ∷ cs) none_ = ground (arith, none-live test now reason cs)

  revoked-off :
      (now : ℕ) (principal_id : String) (o : Option String) (reason : Option String)
      (cs : List MachineCredential)
      → count (is_k k) cs ≤ 1
      → any (in_scope principal_id o k) cs ≡ true
      → (any (is_k k) (update_where (in_scope principal_id o k) (revoke_key now reason) cs) ≡ true)
        × (any (is_live_k k) (update_where (in_scope principal_id o k) (revoke_key now reason) cs)
            ≡ false)
  revoked-off now principal_id o reason [] one there = cc
  revoked-off now principal_id o reason (c ∷ cs) one there =
      elim (Bool-cases (in_scope principal_id o k c)) [
        | inl hit ↦
            let empty : count (is_k k) cs ≡ 0 = ground (arith, hit, one) in
            let off = none-live (in_scope principal_id o k) now reason cs empty in
            rw hit (ground (arith, hit), ground (arith, off))
        | inr miss ↦
            let rest : any (in_scope principal_id o k) cs ≡ true = ground (arith, miss, there) in
            let some_ = scoped-counts principal_id o cs rest in
            let fewer : count (is_k k) cs ≤ 1 = ground arith in
            let (kept, off) = revoked-off now principal_id o reason cs fewer rest in
            ground (arith, miss, kept, off, some_)
      ]

  -- After a revocation that found its key, no run of the operations on keys accepts that key again,
  -- whatever else changes; the primary key makes it the only row with its identifier.
  pub revocation-final :
      (verify : String → String → Option Bool) (now : ℕ) (principal_id : String)
      (o reason : Option String) (ops : List Op) (db : Db)
      → count (λ c. c.key_id == k) db.machine_credentials ≤ 1
      → (revoke_machine_credential_in_scope now principal_id o k reason db).0 ≡ true
      → acceptances verify k ops
          (revoke_machine_credential_in_scope now principal_id o k reason db).1
        ≡ 0
  unfolding revoke_machine_credential_in_scope
  revocation-final verify now principal_id o reason ops db one done =
      dead-acceptances verify ops _
        (revoked-off now principal_id o reason db.machine_credentials one done)
