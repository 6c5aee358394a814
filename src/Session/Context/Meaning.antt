-- ===== src/Session/Context/Meaning.antt =====
-- The organization context of a session, in one statement.
use keylo.Base.{
  String, true, false, not, ◌&&◌, Option, none, some, ◌≡◌, refl, ap, ◌⊎◌, inl, inr, arith, ◌==◌,
  eq_iff, find, Bool-cases,
}
use keylo.Session.Tables.{Organization, Principal, User, Membership, Db, same_text}
use keylo.Session.Context.{
  user_class_valid, membership_stage, user_stage, principal_stage, organization_stage,
  lock_active_organization_session_context,
}

-- An active organization, an active principal of an active person with a known class, who is a
-- member now; and customers only in customer organizations.
pub record IsActiveContext (db : Db) (organization_id principal_id : String) : Type 0 where
  pub organization : Organization
  pub principal : Principal
  pub user : User
  pub membership : Membership
  pub organization_found : find (λ o. o.id == organization_id) db.organizations ≡ some organization
  pub principal_found : find (λ p. p.id == principal_id) db.principals ≡ some principal
  pub user_found : find (λ u. u.id == principal.ref_id) db.users ≡ some user
  pub membership_found :
      find
        (λ m. m.organization_id == organization_id && m.principal_id == principal_id)
        db.organization_memberships
      ≡ some membership
  pub organization_active : organization.status ≡ "active"
  pub principal_active : principal.active ≡ true
  pub is_user : principal.principal_type ≡ "user"
  pub user_active : user.active ≡ true
  pub user_class :
      (user.user_class ≡ some "internal_employee")
      ⊎ (user.user_class ≡ some "external_customer") × (organization.kind ≡ "customer")
  pub member : membership.status ≡ "active"

module _ (db : Db) (organization_id principal_id : String) where
  membership_stage-member :
      (o : Option Membership)
      → membership_stage o ≡ true
      → (m : Membership) × (o ≡ some m) × (m.status ≡ "active")
  unfolding membership_stage
  membership_stage-member none h = cc
  membership_stage-member (some m) h = (m, refl, (eq_iff m.status "active").0 h)

  user_class-cases :
      (c : Option String) (kind : String)
      → user_class_valid c ≡ true
      → (same_text c (some "external_customer") && not (kind == "customer")) ≡ false
      → (c ≡ some "internal_employee") ⊎ (c ≡ some "external_customer") × (kind ≡ "customer")
  user_class-cases none kind valid h = cc
  user_class-cases (some c) kind valid h = elim (Bool-cases (c == "internal_employee")) [
    | inl internal ↦ inl (ap some ((eq_iff c "internal_employee").0 internal))
    | inr other ↦
        let customer : (c == "external_customer") ≡ true = ground (arith, valid, other) in
        inr (
          ap some ((eq_iff c "external_customer").0 customer),
          (eq_iff kind "customer").0 (ground (arith, h, customer)),
        )
  ]

  abbrev IsMember : Type 0
  IsMember =
      (m : Membership) × (find
          (λ m. m.organization_id == organization_id && m.principal_id == principal_id)
          db.organization_memberships
        ≡ some m)
      × (m.status ≡ "active")

  abbrev UserPart : Organization → Option User → Type 0
  UserPart o user =
      (u : User) × (user ≡ some u)
      × (u.active ≡ true)
      × ((u.user_class ≡ some "internal_employee")
          ⊎ (u.user_class ≡ some "external_customer") × (o.kind ≡ "customer"))
      × IsMember

  user_stage-UserPart :
      (o : Organization) (user : Option User)
      → user_stage db organization_id principal_id o user ≡ true
      → UserPart o user
  unfolding user_stage
  user_stage-UserPart o none h = cc
  user_stage-UserPart o (some u) h = (
    u,
    refl,
    ground (arith, h),
    user_class-cases u.user_class o.kind (ground (arith, h)) (ground (arith, h)),
    membership_stage-member _ (ground (arith, h)),
  )

  abbrev PrincipalPart : Organization → Option Principal → Type 0
  PrincipalPart o principal =
      (p : Principal) × (principal ≡ some p)
      × (p.active ≡ true)
      × (p.principal_type ≡ "user")
      × UserPart o (find (λ u. u.id == p.ref_id) db.users)

  principal_stage-PrincipalPart :
      (o : Organization) (principal : Option Principal)
      → principal_stage db organization_id principal_id o principal ≡ true
      → PrincipalPart o principal
  unfolding principal_stage
  principal_stage-PrincipalPart o none h = cc
  principal_stage-PrincipalPart o (some p) h = (
    p,
    refl,
    ground (arith, h),
    (eq_iff p.principal_type "user").0 (ground (arith, h)),
    user_stage-UserPart o _ (ground (arith, h)),
  )

  organization_stage_sound :
      (organization : Option Organization)
      → find (λ o. o.id == organization_id) db.organizations ≡ organization
      → organization_stage db organization_id principal_id organization ≡ true
      → IsActiveContext db organization_id principal_id
  unfolding organization_stage
  organization_stage_sound none found h = cc
  organization_stage_sound (some o) found h =
      let (p, principal_found, active, is_user, user_part) =
        principal_stage-PrincipalPart o _ (ground (arith, h)) in
      let (u, user_found, user_active, class, member) = user_part in
      let (m, member_found, status) = member in
      record {
        organization = o;
        principal = p;
        user = u;
        membership = m;
        organization_found = found;
        principal_found = principal_found;
        user_found = user_found;
        membership_found = member_found;
        organization_active = (eq_iff o.status "active").0 (ground (arith, h));
        principal_active = active;
        is_user = is_user;
        user_active = user_active;
        user_class = class;
        member = status;
      }

  -- The check answers yes only if the organization is active, the principal is active and stands for
  -- an active person with a known class, customers only in organizations for customers, and the
  -- person is an active member of it.
  pub lock_active-IsActiveContext :
      lock_active_organization_session_context db organization_id principal_id ≡ true
      → IsActiveContext db organization_id principal_id
  unfolding lock_active_organization_session_context
  lock_active-IsActiveContext = organization_stage_sound _ refl
