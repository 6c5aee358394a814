-- ===== src/Session/Context.antt =====
-- `lock_active_organization_session_context` of src/db/refresh_session.rs: whether an organization
-- session may exist now. The row locks keep other writers out until the transaction ends.
pub mod Meaning
use keylo.Base.{
  String, Bool, true, false, not, ◌&&◌, ◌||◌, Option, none, some, ◌==◌, find, if◌then◌else◌,
}
use keylo.Session.Tables.{Organization, Principal, User, Membership, Db, same_text}

-- matches!(user_class, Some("internal_employee" | "external_customer"))
abbrev user_class_valid : Option String → Bool
user_class_valid none = false
user_class_valid (some c) = c == "internal_employee" || c == "external_customer"

membership_stage : Option Membership → Bool
membership_stage none = false
membership_stage (some m) = m.status == "active"

user_stage : Db → String → String → Organization → Option User → Bool
unfolding membership_stage
user_stage db organization_id principal_id organization none = false
user_stage db organization_id principal_id organization (some user) =
    if not user.active
      || not (user_class_valid user.user_class)
      || same_text user.user_class (some "external_customer")
        && not (organization.kind == "customer")
    then false
    else membership_stage (
        find (λ m. m.organization_id == organization_id && m.principal_id == principal_id)
          db.organization_memberships)

principal_stage : Db → String → String → Organization → Option Principal → Bool
unfolding user_stage
principal_stage db organization_id principal_id organization none = false
principal_stage db organization_id principal_id organization (some principal) =
    if not principal.active || not (principal.principal_type == "user")
    then false
    else user_stage db organization_id principal_id organization
        (find (λ u. u.id == principal.ref_id) db.users)

organization_stage : Db → String → String → Option Organization → Bool
unfolding principal_stage
organization_stage db organization_id principal_id none = false
organization_stage db organization_id principal_id (some organization) =
    if not (organization.status == "active")
    then false
    else principal_stage db organization_id principal_id organization
        (find (λ p. p.id == principal_id) db.principals)

unfoldable pub lock_active_organization_session_context : Db → String → String → Bool
unfolding organization_stage
lock_active_organization_session_context db organization_id principal_id =
    organization_stage db organization_id principal_id
      (find (λ o. o.id == organization_id) db.organizations)
