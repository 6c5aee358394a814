-- ===== src/Machine/Scope.antt =====
-- The fixed scope of a machine principal: `lock_machine_principal_scope`,
-- `machine_principal_context_is_active_in_transaction` and what they call in src/db/machine.rs.
pub mod Agreement
use keylo.Base.Text.{is_blank, trim}
use keylo.Base.Results.{Result, ok, err, ◌>>=◌, ok_or}
use keylo.Base.{
  String, Bool, true, false, not, ◌&&◌, ◌||◌, Option, none, some, ◌==◌, any, find, if◌then◌else◌,
}
use keylo.Session.Tables.{is_none, same_text}
use keylo.Organizations.Tables.{Principal, Failure, bail, ensure, is_membership}
use keylo.Organizations.Tables as Organizations
use keylo.Organizations.Managers.{is_active_member}
use keylo.Machine.Tables.{ServiceClient, DeviceScope, Db}

pub record MachinePrincipalScope : Type 0 where
  pub principal : Principal
  pub scope_kind : String
  pub organization_id : Option String

-- A scope row: the kind, the organization, and whether the machine itself is active.
pub record ScopeRow : Type 0 where
  pub scope_kind : String
  pub organization_id : Option String
  pub active : Bool

abbrev pub normalize_organization_id : Option String → Result (Option String) Failure
normalize_organization_id none = ok none
normalize_organization_id (some id) =
    if is_blank id then err (bail "machine_scope_invalid") else ok (some (trim id))

abbrev pub scope_kind_from_organization : Option String → String
scope_kind_from_organization none = "platform"
scope_kind_from_organization (some id) = "organization"

abbrev pub scope_is_well_formed : String → Option String → Bool
scope_is_well_formed kind none = kind == "platform"
scope_is_well_formed kind (some id) = kind == "organization"

abbrev pub service_row : Option ServiceClient → Option ScopeRow
service_row none = none
service_row (some s) =
    some
      (record { scope_kind = s.scope_kind; organization_id = s.organization_id; active = s.active })

abbrev pub device_row : Option DeviceScope → Option ScopeRow
device_row none = none
device_row (some d) =
    some (record { scope_kind = d.scope_kind; organization_id = d.organization_id; active = true })

-- match principal.principal_type
unfoldable pub scope_row : Db → Principal → Option ScopeRow
scope_row db p =
    if p.principal_type == "service"
    then service_row (find (λ s. s.service_id == p.ref_id) db.service_clients)
    else if p.principal_type == "device"
    then device_row (find (λ d. d.principal_id == p.id) db.device_principal_scopes)
    else none

abbrev pub is_active_organization : Option Organizations.Organization → Bool
is_active_organization none = false
is_active_organization (some o) = o.status == "active"

abbrev pub lock_active_organization : Db → String → Result Unit Failure
lock_active_organization db organization_id =
    ensure (is_active_organization (find (λ o. o.id == organization_id) db.directory.organizations))
      "machine_organization_context_inactive"

abbrev pub lock_active_organization_membership : Db → String → String → Result Unit Failure
lock_active_organization_membership db organization_id principal_id =
    lock_active_organization db organization_id >>= λ _.
    ensure
      (is_active_member
        (find (is_membership organization_id principal_id) db.directory.organization_memberships))
      "machine_organization_membership_inactive"

abbrev pub lock_expected : Db → Option String → String → Result Unit Failure
lock_expected db none principal_id = ok tt
lock_expected db (some organization_id) principal_id =
    lock_active_organization_membership db organization_id principal_id

unfoldable pub lock_machine_principal_scope :
    Db → String → Option String → Result MachinePrincipalScope Failure
lock_machine_principal_scope db principal_id expected =
    ok_or (bail "machine_principal_not_found")
      (find (λ p. p.id == principal_id) db.directory.principals)
    >>= λ p. ensure p.active "machine_principal_inactive" >>= λ _.
        ok_or (bail "machine_principal_type_invalid") (scope_row db p) >>= λ s.
        ensure (s.active && scope_is_well_formed s.scope_kind s.organization_id)
          "machine_principal_scope_invalid"
        >>= λ _. ensure (same_text s.organization_id expected) "machine_scope_mismatch" >>= λ _.
            lock_expected db expected p.id >>= λ _. ok (record {
              principal = p;
              scope_kind = s.scope_kind;
              organization_id = s.organization_id;
            })

-- SELECT 1 FROM organizations INNER JOIN organization_memberships …
abbrev pub has_membership : Db → Option String → String → Bool
has_membership db none principal_id = true
has_membership db (some organization_id) principal_id =
    any (λ o. o.id == organization_id && o.status == "active") db.directory.organizations
    && any (λ m. is_membership organization_id principal_id m && m.status == "active")
        db.directory.organization_memberships

abbrev pub row_is_active : Db → Principal → Option String → Option ScopeRow → Bool
row_is_active db p expected none = false
row_is_active db p expected (some s) =
    if not s.active
      || not (scope_is_well_formed s.scope_kind s.organization_id)
      || not (same_text s.organization_id expected)
    then false
    else has_membership db expected p.id

unfoldable pub machine_principal_context_is_active : Db → Principal → Option String → Bool
machine_principal_context_is_active db p expected = row_is_active db p expected (scope_row db p)

abbrev pub well_formed : Principal → Option ScopeRow → Option MachinePrincipalScope
well_formed p none = none
well_formed p (some s) =
    if scope_is_well_formed s.scope_kind s.organization_id
    then some
        (record { principal = p; scope_kind = s.scope_kind; organization_id = s.organization_id })
    else none

abbrev pub scope_of : Db → Option Principal → Option MachinePrincipalScope
scope_of db none = none
scope_of db (some p) = well_formed p (scope_row db p)

unfoldable pub get_machine_principal_scope : Db → String → Option MachinePrincipalScope
get_machine_principal_scope db principal_id =
    scope_of db (find (λ p. p.id == principal_id) db.directory.principals)
