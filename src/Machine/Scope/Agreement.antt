-- ===== src/Machine/Scope/Agreement.antt =====
-- The check when a key is issued agrees with the check when it is used.
use keylo.Base.Results.{ok_or-eq-ok}
use mathlib.Core.Path.{subst}
use keylo.Base.Results.{Result, ok, err, ◌>>=◌, ok_or, bind-holds}
use keylo.Base.{
  String, true, ◌&&◌, Option, none, some, List, [], ◌∷◌, ◌≡◌, refl, arith, ◌==◌, any, find,
}
use keylo.Session.Tables.{same_text}
use keylo.Organizations.Tables.{
  Organization, Principal, Membership, Failure, bail, ensure, is_membership,
}
use keylo.Organizations.Managers.{is_active_member}
use keylo.Organizations.Managers.Meaning.{ensure-eq-ok}
use keylo.Machine.Tables.{Db}
use keylo.Machine.Scope.{
  MachinePrincipalScope, ScopeRow, scope_is_well_formed, scope_row, is_active_organization,
  lock_expected, lock_machine_principal_scope, has_membership, machine_principal_context_is_active,
  get_machine_principal_scope,
}

organization-any :
    (id : String) (os : List Organization)
    → is_active_organization (find (λ o. o.id == id) os) ≡ true
    → any (λ o. o.id == id && o.status == "active") os ≡ true
organization-any id [] h = cc
organization-any id (o ∷ os) h = ground (arith, organization-any id os)

member-any :
    (o p : String) (ms : List Membership)
    → is_active_member (find (is_membership o p) ms) ≡ true
    → any (λ m. is_membership o p m && m.status == "active") ms ≡ true
member-any o p [] h = cc
member-any o p (m ∷ ms) h = ground (arith, member-any o p ms)

expected-has_membership :
    (db : Db) (expected : Option String) (p : String)
    → lock_expected db expected p ≡ ok tt
    → has_membership db expected p ≡ true
expected-has_membership db none p locked = refl
expected-has_membership db (some o) p locked = ground (
  arith,
  locked,
  organization-any o db.directory.organizations,
  member-any o p db.directory.organization_memberships,
)

module _ (db : Db) (principal_id : String) (expected : Option String) where
  -- What a scope that is locked says.
  abbrev pub IsInScope : MachinePrincipalScope → Type 0
  IsInScope s =
      (find (λ p. p.id == principal_id) db.directory.principals ≡ some s.principal)
      × (s.principal.active ≡ true)
      × (machine_principal_context_is_active db s.principal expected ≡ true)
      × (get_machine_principal_scope db principal_id ≡ some s)

  unfoldable Agrees : Result MachinePrincipalScope Failure → Type 0
  Agrees (err e) = Unit
  Agrees (ok s) = IsInScope s

  step :
      {A : Type 0} (r : Result A Failure) (rest : A → Result MachinePrincipalScope Failure)
      → ((x : A) → r ≡ ok x → Agrees (rest x))
      → Agrees (r >>= rest)
  unfolding Agrees
  step r rest = bind-holds Agrees (λ e. tt) r rest

  locked-IsInScope :
      (p : Principal) (s : ScopeRow)
      → find (λ p. p.id == principal_id) db.directory.principals ≡ some p
      → p.active ≡ true
      → scope_row db p ≡ some s
      → (s.active && scope_is_well_formed s.scope_kind s.organization_id) ≡ true
      → same_text s.organization_id expected ≡ true
      → has_membership db expected p.id ≡ true
      → IsInScope
          (record { principal = p; scope_kind = s.scope_kind; organization_id = s.organization_id })
  unfolding machine_principal_context_is_active get_machine_principal_scope
  locked-IsInScope p s found active row formed same member =
      let machine : s.active ≡ true = ground (arith, formed) in
      let kind : scope_is_well_formed s.scope_kind s.organization_id ≡ true =
        ground (arith, formed) in
      (found, active, simp (row, machine, kind, same, member), simp (found, row, kind))

  lock-Agrees : Agrees (lock_machine_principal_scope db principal_id expected)
  unfolding lock_machine_principal_scope Agrees
  lock-Agrees =
      step
        (ok_or (bail "machine_principal_not_found")
          (find (λ p. p.id == principal_id) db.directory.principals))
        _
        λ p found. step (ensure p.active "machine_principal_inactive") _ λ _ active.
          step (ok_or (bail "machine_principal_type_invalid") (scope_row db p)) _ λ s row.
            step
              (ensure (s.active && scope_is_well_formed s.scope_kind s.organization_id)
                "machine_principal_scope_invalid")
              _
              λ _ formed.
                step (ensure (same_text s.organization_id expected) "machine_scope_mismatch") _
                  λ _ same. step (lock_expected db expected p.id) _ λ _ locked.
                    locked-IsInScope p s (ok_or-eq-ok _ _ found) (ensure-eq-ok _ _ active)
                      (ok_or-eq-ok _ _ row) (ensure-eq-ok _ _ formed) (ensure-eq-ok _ _ same)
                      (expected-has_membership db expected p.id locked)

  -- A scope that can be locked, as it must be to issue a key, is that of an active principal which
  -- the check at the time of use lets through in the same scope, and the one that is reported.
  pub lock-IsInScope :
      (s : MachinePrincipalScope)
      → lock_machine_principal_scope db principal_id expected ≡ ok s
      → IsInScope s
  unfolding Agrees
  lock-IsInScope s locked = subst Agrees locked lock-Agrees
