-- ===== src/Organizations/Status.antt =====
-- `set_organization_status` of src/db/organization.rs: the lifecycle of an organization, and what
-- leaving the active state does to its sessions.
pub mod Meaning
use keylo.Base.Text.{◌⧺◌, trim}
use keylo.Base.Results.{Result, ok, err, ◌>>=◌}
use keylo.Base.{
  ℕ, String, Bool, true, false, not, ◌&&◌, ◌||◌, Option, none, some, ◌==◌, find, retain,
  update_where, if◌then◌else◌,
}
use keylo.Session.Tables.{RefreshSession, is_none, same_text}
use keylo.Organizations.Tables.{
  Organization, AuthorizationCode, Db, Failure, ensure, end_session, is_live, in_organization,
}

pub record OrganizationStatusChange : Type 0 where
  pub previous_status : String
  pub organization : Organization

abbrev pub is_valid_organization_status : String → Bool
is_valid_organization_status s = s == "active" || s == "disabled" || s == "archived"

abbrev pub is_valid_organization_status_transition : String → String → Bool
is_valid_organization_status_transition current next =
    current == next
    || current == "active" && next == "disabled"
    || current == "active" && next == "archived"
    || current == "disabled" && next == "active"
    || current == "disabled" && next == "archived"
    || current == "archived" && next == "active"

abbrev pub with_status : ℕ → String → Organization → Organization
with_status now status o = record o { status = status; updated_at = now }

abbrev pub is_pending_code : String → AuthorizationCode → Bool
is_pending_code organization_id c =
    same_text c.organization_id (some organization_id) && is_none c.consumed_at

abbrev pub leaves_active : String → String → Bool
leaves_active previous status = previous == "active" && not (status == "active")

-- The tables after the UPDATE, and after what leaving the active state adds.
abbrev pub status_tables : ℕ → String → String → String → Db → Db
status_tables now organization_id previous status db =
    let updated = record db {
      organizations =
          update_where (λ o. o.id == organization_id) (with_status now status) db.organizations;
    } in
    if leaves_active previous status
    then record updated {
      refresh_sessions =
          update_where (λ s. in_organization organization_id s && is_live now s)
            (end_session now ("organization_" ⧺ status)) db.refresh_sessions;
      oidc_authorization_codes =
          retain (λ c. not (is_pending_code organization_id c)) db.oidc_authorization_codes;
    }
    else updated

unfoldable pub change_status :
    ℕ
    → String
    → String
    → Db
    → Option Organization
    → Result (Option OrganizationStatusChange × Db) Failure
change_status now organization_id status db none = ok (none, db)
change_status now organization_id status db (some o) =
    ensure (is_valid_organization_status_transition o.status status)
      "invalid_organization_status_transition"
    >>= λ _. ok (
      some (record { previous_status = o.status; organization = with_status now status o }),
      status_tables now organization_id o.status status db,
    )

unfoldable pub set_organization_status :
    ℕ → String → String → Db → Result (Option OrganizationStatusChange × Db) Failure
set_organization_status now organization_id status db =
    ensure (is_valid_organization_status (trim status)) "invalid_organization_status" >>= λ _.
    change_status now organization_id (trim status) db
      (find (λ o. o.id == organization_id) db.organizations)
