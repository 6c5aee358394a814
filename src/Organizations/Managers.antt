-- ===== src/Organizations/Managers.antt =====
-- `lock_organization_manager_context`, `lock_active_organization_manager` and
-- `lock_active_organization_manager_target` of src/db/organization.rs: who may write for an
-- organization. The row locks keep other writers out until the transaction ends.
pub mod Meaning
use keylo.Base.Results.{Result, ok, err, ◌>>=◌, ok_or}
use keylo.Base.{
  String, Bool, true, false, not, ◌&&◌, ◌||◌, Option, none, some, ◌==◌, find, if◌then◌else◌,
}
use keylo.Organizations.Tables.{
  Organization, Principal, User, Membership, Db, Failure, bail, ensure, is_membership,
  is_known_class, kind_fits,
}

pub record LockedOrganizationManagerContext : Type 0 where
  pub target : Principal
  pub target_membership : Option Membership
  pub target_user_active : Option Bool
  pub actor_management_role : String

-- The users row of a human principal, which must be there.
abbrev pub user_row : Db → Principal → Result (Option User) Failure
user_row db p =
    if p.principal_type == "user"
    then ok_or (bail "organization_principal_user_not_found")
        (find (λ u. u.id == p.ref_id) db.users)
      >>= (λ u. ok (some u))
    else ok none

abbrev pub is_manager_role : String → Bool
is_manager_role role = role == "admin" || role == "owner"

-- The actor: a live person of a known class, with an active membership that manages.
abbrev pub actor_checks : Organization → Principal → Membership → Option User → Result Unit Failure
actor_checks organization actor m none = err (bail "organization_manager_requires_user_principal")
actor_checks organization actor m (some u) =
    ensure (actor.active && u.active) "organization_manager_principal_inactive"
    >>= (λ _. ensure (is_known_class u.user_class) "organization_manager_user_class_invalid")
    >>= (λ _.
        ensure (kind_fits organization u.user_class)
          "external_customer_requires_customer_organization")
    >>= (λ _. ensure (m.status == "active") "organization_manager_membership_not_active")
    >>= (λ _. ensure (is_manager_role m.management_role) "organization_manager_role_required")

abbrev pub target_checks : Organization → Option User → Result (Option Bool) Failure
target_checks organization none = ok none
target_checks organization (some u) =
    ensure (is_known_class u.user_class) "organization_target_user_class_invalid"
    >>= (λ _.
        ensure (kind_fits organization u.user_class)
          "external_customer_requires_customer_organization")
    >>= (λ _. ok (some u.active))

unfoldable pub lock_organization_manager_context :
    Db → String → String → String → Result LockedOrganizationManagerContext Failure
lock_organization_manager_context db organization_id actor_principal_id target_principal_id =
    let member : String → Option Membership =
      λ id. find (is_membership organization_id id) db.organization_memberships in
    ok_or (bail "organization_not_found") (find (λ o. o.id == organization_id) db.organizations)
    >>= λ organization. ensure (organization.status == "active") "organization_not_active" >>= λ _.
        ok_or (bail "organization_manager_principal_not_found")
          (find (λ p. p.id == actor_principal_id) db.principals)
        >>= λ actor.
            ok_or (bail "organization_target_principal_not_found")
              (find (λ p. p.id == target_principal_id) db.principals)
            >>= λ target. user_row db actor >>= λ actor_user. user_row db target >>= λ target_user.
                ok_or (bail "organization_manager_membership_not_found") (member actor_principal_id)
                >>= λ membership. actor_checks organization actor membership actor_user >>= λ _.
                    target_checks organization target_user >>= λ target_user_active. ok (record {
                      target = target;
                      target_membership = member target_principal_id;
                      target_user_active = target_user_active;
                      actor_management_role = membership.management_role;
                    })

unfoldable pub lock_active_organization_manager : Db → String → String → Result Unit Failure
lock_active_organization_manager db organization_id actor_principal_id =
    lock_organization_manager_context db organization_id actor_principal_id actor_principal_id
    >>= λ context. ok tt

abbrev pub is_active_member : Option Membership → Bool
is_active_member none = false
is_active_member (some m) = m.status == "active"

unfoldable pub lock_active_organization_manager_target :
    Db → String → String → String → Result Unit Failure
lock_active_organization_manager_target db organization_id actor_principal_id target_principal_id =
    lock_organization_manager_context db organization_id actor_principal_id target_principal_id
    >>= λ context. ensure context.target.active "organization_target_principal_inactive" >>= λ _.
        ensure (is_active_member context.target_membership)
          "organization_target_membership_not_active"
