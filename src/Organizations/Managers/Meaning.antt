-- ===== src/Organizations/Managers/Meaning.antt =====
-- Who may write for an organization, in one statement.
use keylo.Base.Results.{ok_or-eq-ok}
use keylo.Base.Results.{Result, ok, err, ◌>>=◌, ok_or, bind-eq-ok, bind-holds}
use keylo.Base.{
  String, Bool, true, false, ◌&&◌, Option, none, some, ◌≡◌, refl, arith, ◌==◌, find, Bool-cases,
  inl, inr,
}
use keylo.Organizations.Tables.{
  Organization, Principal, User, Membership, Db, Failure, bail, ensure, is_membership,
  is_known_class, kind_fits,
}
use keylo.Organizations.Managers.{
  LockedOrganizationManagerContext, user_row, is_manager_role, actor_checks, target_checks,
  lock_organization_manager_context,
}

-- An active organization, and an active person of a known class that fits it, whose membership is
-- active and of a managing role.
pub record IsManager (db : Db) (organization_id principal_id : String) : Type 0 where
  pub organization : Organization
  pub principal : Principal
  pub user : User
  pub membership : Membership
  pub organization_found : find (λ o. o.id == organization_id) db.organizations ≡ some organization
  pub principal_found : find (λ p. p.id == principal_id) db.principals ≡ some principal
  pub user_found : find (λ u. u.id == principal.ref_id) db.users ≡ some user
  pub membership_found :
      find (is_membership organization_id principal_id) db.organization_memberships
      ≡ some membership
  pub organization_active : organization.status == "active" ≡ true
  pub is_user : principal.principal_type == "user" ≡ true
  pub active : (principal.active && user.active) ≡ true
  pub known_class : is_known_class user.user_class ≡ true
  pub class_fits : kind_fits organization user.user_class ≡ true
  pub member : membership.status == "active" ≡ true
  pub manages : is_manager_role membership.management_role ≡ true

pub ensure-eq-ok : (b : Bool) (text : String) → ensure b text ≡ ok tt → b ≡ true
ensure-eq-ok true text passed = refl
ensure-eq-ok false text passed = cc

-- The users row that was read, if the principal is a person.
user_row-eq-some :
    (db : Db) (p : Principal) (u : User)
    → user_row db p ≡ ok (some u)
    → (p.principal_type == "user" ≡ true) × (find (λ v. v.id == p.ref_id) db.users ≡ some u)
user_row-eq-some db p u read = elim (Bool-cases (p.principal_type == "user")) [
  | inr other ↦ ground (arith, other, read)
  | inl human ↦
      let e = bail "organization_principal_user_not_found" in
      let o = find (λ v. v.id == p.ref_id) db.users in
      let read' : (ok_or e o >>= λ v. ok (some v)) ≡ ok (some u) = ground (arith, human, read) in
      let (v, found, same) = bind-eq-ok (ok_or e o) _ read' in
      (human, cc (ok_or-eq-ok e o found, same))
]

-- What the reads and the checks on the actor say together.
actor_row :
    (db : Db) (organization : Organization) (actor : Principal) (m : Membership)
    (user : Option User)
    → user_row db actor ≡ ok user
    → actor_checks organization actor m user ≡ ok tt
    → (u : User) × (actor.principal_type == "user" ≡ true)
      × (find (λ v. v.id == actor.ref_id) db.users ≡ some u)
      × ((actor.active && u.active) ≡ true)
      × (is_known_class u.user_class ≡ true)
      × (kind_fits organization u.user_class ≡ true)
      × (m.status == "active" ≡ true)
      × (is_manager_role m.management_role ≡ true)
actor_row db organization actor m none read passed = cc
actor_row db organization actor m (some u) read passed =
    let (human, found) = user_row-eq-some db actor u read in
    (
      u,
      human,
      found,
      ground (arith, passed),
      ground (arith, passed),
      ground (arith, passed),
      ground (arith, passed),
      ground (arith, passed),
    )

module _ (db : Db) (organization_id actor_id target_id : String) where
  -- What the lock's result says, when it succeeds.
  unfoldable pub IsLocked : Result LockedOrganizationManagerContext Failure → Type 0
  IsLocked (err e) = Unit
  IsLocked (ok c) =
      (m : IsManager db organization_id actor_id) × (c.actor_management_role
        ≡ m.membership.management_role)
      × (find (λ p. p.id == target_id) db.principals ≡ some c.target)
      × (c.target_membership
          ≡ find (is_membership organization_id target_id) db.organization_memberships)

  step :
      {A : Type 0} (r : Result A Failure)
      (rest : A → Result LockedOrganizationManagerContext Failure)
      → ((x : A) → r ≡ ok x → IsLocked (rest x))
      → IsLocked (r >>= rest)
  unfolding IsLocked
  step r rest = bind-holds IsLocked (λ e. tt) r rest

  locked :
      (m : IsManager db organization_id actor_id) (target : Principal) (active : Option Bool)
      → find (λ p. p.id == target_id) db.principals ≡ some target
      → IsLocked (
          ok (record {
            target = target;
            target_membership =
                find (is_membership organization_id target_id) db.organization_memberships;
            target_user_active = active;
            actor_management_role = m.membership.management_role;
          }))
  unfolding IsLocked
  locked m target active found = (m, refl, found, refl)

  -- The actor is a manager, and the context carries the actor's role and the target's rows.
  pub lock-IsLocked :
      IsLocked (lock_organization_manager_context db organization_id actor_id target_id)
  unfolding lock_organization_manager_context
  lock-IsLocked =
      step
        (ok_or (bail "organization_not_found")
          (find (λ o. o.id == organization_id) db.organizations))
        _
        λ o found_o. step (ensure (o.status == "active") "organization_not_active") _ λ _ active_o.
          step
            (ok_or (bail "organization_manager_principal_not_found")
              (find (λ p. p.id == actor_id) db.principals))
            _
            λ actor found_a.
              step
                (ok_or (bail "organization_target_principal_not_found")
                  (find (λ p. p.id == target_id) db.principals))
                _
                λ target found_t. step (user_row db actor) _ λ actor_user read_a.
                  step (user_row db target) _ λ target_user _.
                    step
                      (ok_or (bail "organization_manager_membership_not_found")
                        (find (is_membership organization_id actor_id) db.organization_memberships))
                      _
                      λ m found_m. step (actor_checks o actor m actor_user) _ λ _ checked.
                        step (target_checks o target_user) _ λ active _.
                          let a = actor_row db o actor m actor_user read_a checked in
                          let manager : IsManager db organization_id actor_id = record {
                            organization = o;
                            principal = actor;
                            user = a.0;
                            membership = m;
                            organization_found = ok_or-eq-ok _ _ found_o;
                            principal_found = ok_or-eq-ok _ _ found_a;
                            user_found = a.2;
                            membership_found = ok_or-eq-ok _ _ found_m;
                            organization_active = ensure-eq-ok _ _ active_o;
                            is_user = a.1;
                            active = a.3;
                            known_class = a.4;
                            class_fits = a.5;
                            member = a.6;
                            manages = a.7;
                          } in
                          locked manager target active (ok_or-eq-ok _ _ found_t)
