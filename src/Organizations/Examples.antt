-- ===== src/Organizations/Examples.antt =====
-- A customer organization with an owner, an administrator and somebody who was invited.
use keylo.Base.Text.{trim}
use keylo.Base.Results.{ok, err}
use keylo.Base.{String, true, none, some, [], ◌∷◌, ◌≡◌, refl, arith}
use keylo.Session.Tables.{RefreshSession}
use keylo.Organizations.Tables.{Organization, Principal, User, Membership, Db, bail}
use keylo.Organizations.Managers.{lock_organization_manager_context}
use keylo.Organizations.Membership.{
  upsert_organization_membership, write_as_manager, upsert_organization_membership_as_manager,
  accept_invitation, join_organization_membership,
}
use keylo.Organizations.Membership.Owners.{KeepsOwners, admin-KeepsOwners}
use keylo.Organizations.Membership.Sessions.{IsCutOff, upsert-IsCutOff}
use keylo.Organizations.Membership.Joining.{IsJoined, join-IsJoined}
use keylo.Organizations.Status.{OrganizationStatusChange, change_status, set_organization_status}
use keylo.Organizations.Status.Meaning.{IsChange, set_organization_status-IsChange}

abbrev person : String → String → Principal
person id user_id = record {
  id = id;
  principal_type = "user";
  subject = user_id;
  ref_id = user_id;
  display_name = user_id;
  active = true;
  updated_at = 1;
}

abbrev account : String → User
account id = record { id = id; active = true; user_class = "external_customer" }

abbrev member : String → String → String → Membership
member principal_id status role = record {
  organization_id = "acme";
  principal_id = principal_id;
  status = status;
  joined_at = 2;
  invited_by = none;
  management_role = role;
  updated_at = 2;
}

abbrev acme : Organization
acme = record {
  id = "acme";
  slug = "acme";
  name = "Acme";
  kind = "customer";
  status = "active";
  created_at = 1;
  updated_at = 1;
}

abbrev scoped : String → String → RefreshSession
scoped id principal_id = record {
  id = id;
  principal_id = principal_id;
  client_id = "web";
  current_refresh_token_id = "t";
  current_access_jti = "j";
  organization_id = some "acme";
  login_ip = none;
  user_agent = none;
  issued_at = 1;
  rotated_at = none;
  expires_at = 900;
  revoked_at = none;
  revoke_reason = none;
}

abbrev start : Db
start = record {
  organizations = acme ∷ [];
  principals = person "po" "uo" ∷ person "pa" "ua" ∷ person "pi" "ui" ∷ [];
  users = account "uo" ∷ account "ua" ∷ account "ui" ∷ [];
  organization_memberships =
      member "po" "active" "owner"
      ∷ member "pa" "active" "admin"
      ∷ member "pi" "pending" "member"
      ∷ [];
  refresh_sessions = scoped "so" "po" ∷ scoped "sa" "pa" ∷ [];
  oidc_authorization_codes =
      record { organization_id = some "acme"; user_id = "ua"; consumed_at = none } ∷ [];
}

admin-owner :
    upsert_organization_membership_as_manager 9 "acme" "pa" "po" "suspended" none start
    ≡ err (bail "organization_owner_role_required")
unfolding upsert_organization_membership_as_manager lock_organization_manager_context
admin-owner = refl

abbrev promoted : Membership
promoted = record {
  organization_id = "acme";
  principal_id = "pi";
  status = "active";
  joined_at = 2;
  invited_by = some "pa";
  management_role = "admin";
  updated_at = 9;
}

abbrev after_promotion : Db
after_promotion = record start {
  organization_memberships =
      member "po" "active" "owner" ∷ member "pa" "active" "admin" ∷ promoted ∷ [];
}

admin-promotes :
    upsert_organization_membership_as_manager 9 "acme" "pa" "pi" " active" (some "admin") start
    ≡ ok (promoted, after_promotion)
unfolding upsert_organization_membership_as_manager lock_organization_manager_context
    write_as_manager
admin-promotes = refl

admin-KeepsOwners_example : KeepsOwners start after_promotion
admin-KeepsOwners_example =
    admin-KeepsOwners "acme" "pa" start 9 "pi" " active" (some "admin")
      (member "pa" "active" "admin") promoted after_promotion refl refl admin-promotes

abbrev suspended : Membership
suspended = record (member "pa" "suspended" "admin") { invited_by = none; updated_at = 9 }

abbrev after_suspension : Db
after_suspension = record start {
  organization_memberships =
      member "po" "active" "owner" ∷ suspended ∷ member "pi" "pending" "member" ∷ [];
  refresh_sessions =
      scoped "so" "po"
      ∷ record (scoped "sa" "pa") {
        revoked_at = some 9;
        revoke_reason = some "organization_membership_suspended";
      }
      ∷ [];
  oidc_authorization_codes = [];
}

upsert-suspends :
    upsert_organization_membership 9 "acme" "pa" "suspended" none none start
    ≡ ok (suspended, after_suspension)
unfolding upsert_organization_membership
upsert-suspends = refl

upsert-IsCutOff_example : IsCutOff 9 "acme" "pa" 10 start after_suspension
upsert-IsCutOff_example =
    upsert-IsCutOff 9 "acme" "pa" 10 "suspended" none none start after_suspension suspended
      (omega arith) upsert-suspends refl

abbrev joined : Membership
joined = record (member "pi" "active" "member") { updated_at = 9 }

abbrev after_join : Db
after_join = record start {
  organization_memberships =
      member "po" "active" "owner" ∷ member "pa" "active" "admin" ∷ joined ∷ [];
}

join-invited : join_organization_membership 9 "acme" "pi" start ≡ ok (joined, after_join)
unfolding join_organization_membership accept_invitation
join-invited = refl

join-IsJoined_example :
    IsJoined 9 "acme" "pi" start joined after_join
    × (join_organization_membership 12 "acme" "pi" after_join ≡ ok (joined, after_join))
join-IsJoined_example = join-IsJoined 9 "acme" "pi" 12 start after_join joined join-invited

abbrev disabled : OrganizationStatusChange
disabled = record {
  previous_status = "active";
  organization = record acme { status = "disabled"; updated_at = 9 };
}

abbrev after_disable : Db
after_disable = record start {
  organizations = record acme { status = "disabled"; updated_at = 9 } ∷ [];
  refresh_sessions =
      record (scoped "so" "po") {
        revoked_at = some 9;
        revoke_reason = some "organization_disabled";
      }
      ∷ record (scoped "sa" "pa") {
        revoked_at = some 9;
        revoke_reason = some "organization_disabled";
      }
      ∷ [];
  oidc_authorization_codes = [];
}

set_organization_status-disables :
    set_organization_status 9 "acme" "disabled " start ≡ ok (some disabled, after_disable)
unfolding set_organization_status change_status
set_organization_status-disables = refl

set_organization_status-IsChange_example :
    IsChange 9 "acme" 10 (trim "disabled ") start disabled after_disable
set_organization_status-IsChange_example =
    set_organization_status-IsChange 9 "acme" 10 "disabled " start after_disable disabled
      (omega arith) set_organization_status-disables
