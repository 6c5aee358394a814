-- ===== src/Organizations/Membership.antt =====
-- `upsert_organization_membership`, `upsert_organization_membership_as_manager`,
-- `join_organization_membership` and `get_active_organization_membership` of
-- src/db/organization.rs, each one transaction.
pub mod Owners
pub mod Sessions
pub mod Joining
use keylo.Base.Text.{◌⧺◌, trim}
use keylo.Base.Results.{Result, ok, err, ◌>>=◌, ok_or}
use keylo.Base.{
  ℕ, String, Bool, true, false, not, ◌&&◌, ◌||◌, Option, none, some, List, [], ◌∷◌, ◌++◌, ◌==◌, any,
  find, retain, unwrap_or, update_where, if◌then◌else◌,
}
use keylo.Session.Tables.{RefreshSession, is_none, same_text}
use keylo.Organizations.Tables.{
  Organization, Principal, User, Membership, AuthorizationCode, Db, Failure, bail, ensure,
  is_membership, is_known_class, kind_fits, end_session, is_live, in_organization,
}
use keylo.Organizations.Managers.{
  LockedOrganizationManagerContext, lock_organization_manager_context,
}

abbrev pub is_valid_membership_status : String → Bool
is_valid_membership_status s = s == "pending" || s == "active" || s == "suspended" || s == "removed"

abbrev pub is_valid_management_role : String → Bool
is_valid_management_role role = role == "member" || role == "admin" || role == "owner"

abbrev pub holds_of : (String → Bool) → Option String → Bool
holds_of test none = false
holds_of test (some s) = test s

abbrev pub trimmed : Option String → Option String
trimmed none = none
trimmed (some s) = some (trim s)

-- DO UPDATE SET …
abbrev pub rewritten : ℕ → String → Option String → Option String → Membership → Membership
rewritten now status invited_by role m = record m {
  status = status;
  invited_by = invited_by;
  management_role = unwrap_or role m.management_role;
  updated_at = now;
}

-- The row that INSERT … ON CONFLICT DO UPDATE … RETURNING gives, from the row that was there.
abbrev pub written :
    ℕ → String → String → String → Option String → Option String → Option Membership → Membership
written now organization_id principal_id status invited_by role none = record {
  organization_id = organization_id;
  principal_id = principal_id;
  status = status;
  joined_at = now;
  invited_by = invited_by;
  management_role = unwrap_or role "member";
  updated_at = now;
}
written now organization_id principal_id status invited_by role (some m) =
    rewritten now status invited_by role m

abbrev pub write_membership :
    ℕ → String → String → String → Option String → Option String → List Membership → List Membership
write_membership now organization_id principal_id status invited_by role ms =
    if any (is_membership organization_id principal_id) ms
    then update_where (is_membership organization_id principal_id)
        (rewritten now status invited_by role) ms
    else ms ++ written now organization_id principal_id status invited_by role none ∷ []

-- A live session of the principal in the organization.
abbrev pub is_scoped : ℕ → String → String → RefreshSession → Bool
is_scoped now organization_id principal_id s =
    in_organization organization_id s && s.principal_id == principal_id && is_live now s

-- A membership that is not active ends the principal's sessions in the organization.
abbrev pub end_scoped : ℕ → String → String → String → List RefreshSession → List RefreshSession
end_scoped now organization_id principal_id status ss =
    if not (status == "active")
    then update_where (is_scoped now organization_id principal_id)
        (end_session now ("organization_membership_" ⧺ status)) ss
    else ss

-- A code of the person in the organization that nobody exchanged yet.
abbrev pub is_pending_code : List Principal → String → String → AuthorizationCode → Bool
is_pending_code principals organization_id principal_id c =
    same_text c.organization_id (some organization_id)
    && is_none c.consumed_at
    && any (λ p. p.principal_type == "user" && p.ref_id == c.user_id && p.id == principal_id)
        principals

abbrev pub discard_codes :
    List Principal → String → String → String → List AuthorizationCode → List AuthorizationCode
discard_codes principals organization_id principal_id status cs =
    if not (status == "active")
    then retain (λ c. not (is_pending_code principals organization_id principal_id c)) cs
    else cs

-- LEFT JOIN users: the class, if the principal is a person with an account.
abbrev pub class_of : Option User → Option String
class_of none = none
class_of (some u) = some u.user_class

abbrev pub user_class : Db → Principal → Option String
user_class db p =
    if p.principal_type == "user" then class_of (find (λ u. u.id == p.ref_id) db.users) else none

unfoldable pub upsert_organization_membership :
    ℕ
    → String
    → String
    → String
    → Option String
    → Option String
    → Db
    → Result (Membership × Db) Failure
upsert_organization_membership now organization_id principal_id status invited_by role db =
    let status' = trim status in
    let role' = trimmed role in
    ensure (is_valid_membership_status status') "invalid_organization_membership_status" >>= λ _.
    ensure (not (holds_of (λ r. not (is_valid_management_role r)) role'))
      "invalid_organization_management_role"
    >>= λ _.
        ok_or (bail "organization_or_principal_not_found")
          (find (λ o. o.id == organization_id) db.organizations)
        >>= λ o.
            ok_or (bail "organization_or_principal_not_found")
              (find (λ p. p.id == principal_id) db.principals)
            >>= λ p.
                ensure (o.status == "active" || not (status' == "pending" || status' == "active"))
                  "organization_not_active"
                >>= λ _.
                    ensure (not (status' == "active") || p.active) "principal_not_active" >>= λ _.
                    ensure
                      (not (
                        p.principal_type == "user"
                        && same_text (user_class db p) (some "external_customer")
                        && not (o.kind == "customer")))
                      "external_customer_requires_customer_organization"
                    >>= λ _.
                        ensure
                          (not (holds_of (λ r. not (r == "member")) role')
                            || p.principal_type == "user"
                              && holds_of is_known_class (user_class db p))
                          "organization_management_role_requires_user_principal"
                        >>= λ _. ok (
                          written now organization_id principal_id status' invited_by role' (
                              find (is_membership organization_id principal_id)
                                db.organization_memberships),
                          record db {
                            organization_memberships =
                                write_membership now organization_id principal_id status' invited_by
                                  role' db.organization_memberships;
                            refresh_sessions =
                                end_scoped now organization_id principal_id status'
                                  db.refresh_sessions;
                            oidc_authorization_codes =
                                discard_codes db.principals organization_id principal_id status'
                                  db.oidc_authorization_codes;
                          },
                        )

abbrev pub is_owner : Option Membership → Bool
is_owner none = false
is_owner (some m) = m.management_role == "owner"

abbrev pub is_inactive : Option Bool → Bool
is_inactive none = false
is_inactive (some active) = not active

-- A retried invitation leaves a member that is active already as it is.
abbrev pub kept_invitation : String → Option Membership → Option Membership
kept_invitation status none = none
kept_invitation status (some m) =
    if status == "pending" && m.status == "active" then some m else none

unfoldable pub write_as_manager :
    ℕ
    → String
    → String
    → String
    → String
    → Option String
    → Db
    → Option Membership
    → Result (Membership × Db) Failure
write_as_manager now organization_id actor target status role db (some m) = ok (m, db)
write_as_manager now organization_id actor target status role db none = ok (
  written now organization_id target status (some actor) role
      (find (is_membership organization_id target) db.organization_memberships),
  record db {
    organization_memberships =
        write_membership now organization_id target status (some actor) role
          db.organization_memberships;
    refresh_sessions = end_scoped now organization_id target status db.refresh_sessions;
  },
)

-- What an administrator may not do: make an owner, or change an owner's role or active status.
abbrev pub admin_overreach : LockedOrganizationManagerContext → String → Option String → Bool
admin_overreach c status role =
    c.actor_management_role == "admin"
    && (holds_of (λ r. r == "owner") role
        || is_owner c.target_membership
          && (not (status == "active") || holds_of (λ r. not (r == "owner")) role))

unfoldable pub upsert_organization_membership_as_manager :
    ℕ → String → String → String → String → Option String → Db → Result (Membership × Db) Failure
upsert_organization_membership_as_manager now organization_id actor target status role db =
    let status' = trim status in
    let role' = trimmed role in
    ensure (is_valid_membership_status status') "invalid_organization_membership_status" >>= λ _.
    ensure (not (holds_of (λ r. not (is_valid_management_role r)) role'))
      "invalid_organization_management_role"
    >>= λ _. lock_organization_manager_context db organization_id actor target >>= λ c.
        ensure
          (not (status' == "active" && (not c.target.active || is_inactive c.target_user_active)))
          "organization_target_principal_inactive"
        >>= λ _.
            ensure
              (c.target.principal_type == "user" || not (holds_of (λ r. not (r == "member")) role'))
              "organization_management_role_requires_user_principal"
            >>= λ _.
                ensure (not (admin_overreach c status' role')) "organization_owner_role_required"
                >>= λ _.
                    write_as_manager now organization_id actor target status' role' db
                      (kept_invitation status' c.target_membership)

-- `join_organization_membership`, from the person's account and the membership row.
unfoldable pub accept_invitation :
    ℕ → String → String → Db → Membership → Result (Membership × Db) Failure
accept_invitation now organization_id principal_id db m =
    if m.status == "active"
    then ok (m, db)
    else ensure (m.status == "pending") "organization_membership_not_joinable" >>= λ _. ok (
      record m { status = "active"; updated_at = now },
      record db {
        organization_memberships =
            update_where
              (λ r. is_membership organization_id principal_id r && r.status == "pending")
              (λ r. record r { status = "active"; updated_at = now }) db.organization_memberships;
      },
    )

unfoldable pub join_organization_membership :
    ℕ → String → String → Db → Result (Membership × Db) Failure
join_organization_membership now organization_id principal_id db =
    ok_or (bail "organization_not_found") (find (λ o. o.id == organization_id) db.organizations)
    >>= λ o. ensure (o.status == "active") "organization_not_active" >>= λ _.
        ok_or (bail "organization_target_principal_not_found")
          (find (λ p. p.id == principal_id) db.principals)
        >>= λ p.
            ensure (p.principal_type == "user") "organization_join_requires_user_principal" >>= λ _.
            ok_or (bail "organization_target_user_not_found")
              (find (λ u. u.id == p.ref_id) db.users)
            >>= λ u. ensure (p.active && u.active) "organization_target_principal_inactive" >>= λ _.
                ensure (is_known_class u.user_class) "organization_target_user_class_invalid"
                >>= λ _.
                    ensure (kind_fits o u.user_class)
                      "external_customer_requires_customer_organization"
                    >>= λ _.
                        ok_or (bail "organization_invitation_not_found") (
                          find (is_membership organization_id principal_id)
                            db.organization_memberships)
                        >>= accept_invitation now organization_id principal_id db
