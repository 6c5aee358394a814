-- ===== src/Organizations/Membership/Owners.antt =====
-- An administrator neither makes nor unmakes an owner.
use mathlib.Core.Path.{subst}
use keylo.Base.Text.{trim}
use keylo.Base.Results.{Result, ok, err, ◌>>=◌, bind-holds}
use keylo.Base.{
  ℕ, String, Bool, true, false, not, ◌&&◌, ◌||◌, Option, none, some, List, [], ◌∷◌, ◌++◌, ◌≡◌, refl,
  arith, ◌==◌, eq_iff, any, find, update_where, if◌then◌else◌, Bool-cases, inl, inr,
}
use keylo.Organizations.Tables.{Membership, Db, Failure, ensure, is_membership}
use keylo.Organizations.Managers.{
  LockedOrganizationManagerContext, lock_organization_manager_context,
}
use keylo.Organizations.Managers.Meaning.{IsLocked, lock-IsLocked, ensure-eq-ok}
use keylo.Organizations.Membership.{
  is_valid_membership_status, is_valid_management_role, holds_of, trimmed, rewritten, written,
  write_membership, end_scoped, is_owner, is_inactive, kept_invitation, write_as_manager,
  admin_overreach, upsert_organization_membership_as_manager,
}

module _ (now : ℕ) (o p status : String) (invited_by role : Option String) where
  abbrev changed : Option Membership → Option Membership
  changed none = none
  changed (some m) = some (rewritten now status invited_by role m)

  find-rewritten :
      (a b : String) (ms : List Membership)
      → find
          (is_membership a b)
          (update_where (is_membership o p) (rewritten now status invited_by role) ms)
        ≡ (if o == a && p == b
            then changed (find (is_membership o p) ms)
            else find (is_membership a b) ms)
  find-rewritten a b [] = ground arith
  find-rewritten a b (m ∷ ms) = ground (
    arith,
    find-rewritten a b ms,
    eq_iff o a,
    eq_iff p b,
    eq_iff m.organization_id a,
    eq_iff m.principal_id b,
    eq_iff m.organization_id o,
    eq_iff m.principal_id p,
  )

  any-find :
      (ms : List Membership)
      → any (is_membership o p) ms ≡ true
      → (m : Membership) × (find (is_membership o p) ms ≡ some m)
  any-find [] there = cc
  any-find (m ∷ ms) there = elim (Bool-cases (is_membership o p m)) [
    | inl here ↦ (m, ground (arith, here))
    | inr other ↦
        let (r, found) = any-find ms (ground (arith, there, other)) in
        (r, ground (arith, other, found))
  ]

  find-absent :
      (ms : List Membership)
      → any (is_membership o p) ms ≡ false
      → find (is_membership o p) ms ≡ none
  find-absent [] absent = refl
  find-absent (m ∷ ms) absent = ground (arith, find-absent ms)

  find-added :
      (a b : String) (ms : List Membership)
      → any (is_membership o p) ms ≡ false
      → find (is_membership a b) (ms ++ written now o p status invited_by role none ∷ []) ≡ (
          if o == a && p == b
          then some (written now o p status invited_by role none)
          else find (is_membership a b) ms)
  find-added a b [] there = ground arith
  find-added a b (m ∷ ms) there = ground (
    arith,
    find-added a b ms,
    eq_iff o a,
    eq_iff p b,
    eq_iff m.organization_id a,
    eq_iff m.principal_id b,
    eq_iff m.organization_id o,
    eq_iff m.principal_id p,
  )

  -- The row of (a, b) after a write to the row of (o, p).
  pub find-write :
      (a b : String) (ms : List Membership)
      → find (is_membership a b) (write_membership now o p status invited_by role ms) ≡ (
          if o == a && p == b
          then some (written now o p status invited_by role (find (is_membership o p) ms))
          else find (is_membership a b) ms)
  find-write a b ms = elim (Bool-cases (any (is_membership o p) ms)) [
    | inl there ↦ let (m, found) = any-find ms there in cc (there, found, find-rewritten a b ms)
    | inr absent ↦ cc (absent, find-absent ms absent, find-added a b ms absent)
  ]

abbrev pub is_active_owner : Option Membership → Bool
is_active_owner none = false
is_active_owner (some m) = m.management_role == "owner" && m.status == "active"

-- The row of a member.
abbrev pub row : Db → String → String → Option Membership
row db organization_id principal_id =
    find (is_membership organization_id principal_id) db.organization_memberships

-- The owners are the same people, and none of the active ones stopped being active.
abbrev pub KeepsOwners : Db → Db → Type 0
KeepsOwners db db' =
    (a b : String)
    → (is_owner (row db' a b) ≡ is_owner (row db a b))
      × (is_active_owner (row db a b) ≡ true → is_active_owner (row db' a b) ≡ true)

-- A write that does not overreach keeps the role and the activity of the row it changes.
written-owner :
    (now : ℕ) (o p status : String) (invited_by role : Option String) (old : Option Membership)
    → (holds_of (λ r. r == "owner") role
        || is_owner old && (not (status == "active") || holds_of (λ r. not (r == "owner")) role))
      ≡ false
    → (is_owner (some (written now o p status invited_by role old)) ≡ is_owner old)
      × (is_active_owner old ≡ true
          → is_active_owner (some (written now o p status invited_by role old)) ≡ true)
written-owner now o p status invited_by none none modest = (refl, λ active. cc)
written-owner now o p status invited_by (some r) none modest =
    (ground (arith, modest), λ active. cc)
written-owner now o p status invited_by none (some m) modest =
    (refl, λ active. ground (arith, modest, active))
written-owner now o p status invited_by (some r) (some m) modest =
    (ground (arith, modest), λ active. ground (arith, modest, active))

write-KeepsOwners :
    (now : ℕ) (o p status : String) (invited_by role : Option String) (db db' : Db)
    → db'.organization_memberships
      ≡ write_membership now o p status invited_by role db.organization_memberships
    → (holds_of (λ r. r == "owner") role
        || is_owner (row db o p)
          && (not (status == "active") || holds_of (λ r. not (r == "owner")) role))
      ≡ false
    → KeepsOwners db db'
write-KeepsOwners now o p status invited_by role db db' written_ modest a b =
    let ms = db.organization_memberships in
    let moved = find-write now o p status invited_by role a b ms in
    elim (Bool-cases (o == a && p == b)) [
      | inr other ↦
          let same : row db' a b ≡ row db a b = cc (written_, moved, other) in
          (cc same, λ active. cc (same, active))
      | inl mine ↦
          let kept = written-owner now o p status invited_by role (row db o p) modest in
          let here : row db o p ≡ row db a b =
            cc ((eq_iff o a).0 (ground (arith, mine)), (eq_iff p b).0 (ground (arith, mine))) in
          let new : row db' a b ≡ some (written now o p status invited_by role (row db o p)) =
            cc (written_, moved, mine) in
          (cc (new, kept.0, here), λ active. cc (new, kept.1 cc, here))
    ]

module _ (o actor : String) (db : Db) where
  unfoldable IsModest : Result (Membership × Db) Failure → Type 0
  IsModest (err e) = Unit
  IsModest (ok (m, db')) = KeepsOwners db db'

  step :
      {A : Type 0} (r : Result A Failure) (rest : A → Result (Membership × Db) Failure)
      → ((x : A) → r ≡ ok x → IsModest (rest x))
      → IsModest (r >>= rest)
  unfolding IsModest
  step r rest = bind-holds IsModest (λ e. tt) r rest

  admin-role :
      (target : String) (c : LockedOrganizationManagerContext) (am : Membership)
      → lock_organization_manager_context db o actor target ≡ ok c
      → row db o actor ≡ some am
      → am.management_role ≡ "admin"
      → (c.actor_management_role ≡ "admin") × (c.target_membership ≡ row db o target)
  unfolding IsLocked
  admin-role target c am locked found admin =
      let (m, role, _, target_row) =
        subst (IsLocked db o actor target) locked (lock-IsLocked db o actor target) in
      let same : some m.membership ≡ some am = cc (m.membership_found, found) in
      (cc (role, same, admin), target_row)

  write_as_manager-IsModest :
      (now : ℕ) (target status : String) (role : Option String)
      (c : LockedOrganizationManagerContext) (kept : Option Membership)
      → c.actor_management_role ≡ "admin"
      → c.target_membership ≡ row db o target
      → not (admin_overreach c status role) ≡ true
      → IsModest (write_as_manager now o actor target status role db kept)
  unfolding IsModest write_as_manager
  write_as_manager-IsModest now target status role c (some m) admin same modest =
      λ a b. (refl, λ active. active)
  write_as_manager-IsModest now target status role c none admin same modest =
      let db' = record db {
        organization_memberships =
            write_membership now o target status (some actor) role db.organization_memberships;
        refresh_sessions = end_scoped now o target status db.refresh_sessions;
      } in
      write-KeepsOwners now o target status (some actor) role db db' refl
        (rw⁻¹ same (ground (arith, modest, (eq_iff c.actor_management_role "admin").1 admin)))

  upsert-IsModest :
      (now : ℕ) (target status : String) (role : Option String) (am : Membership)
      → row db o actor ≡ some am
      → am.management_role ≡ "admin"
      → IsModest (upsert_organization_membership_as_manager now o actor target status role db)
  unfolding upsert_organization_membership_as_manager
  upsert-IsModest now target status role am found admin =
      let status' = trim status in
      let role' = trimmed role in
      step (ensure (is_valid_membership_status status') "invalid_organization_membership_status") _
        λ _ _.
          step
            (ensure (not (holds_of (λ r. not (is_valid_management_role r)) role'))
              "invalid_organization_management_role")
            _
            λ _ _. step (lock_organization_manager_context db o actor target) _ λ c locked.
              let (is_admin, target_row) = admin-role target c am locked found admin in
              step
                (ensure
                  (not (
                    status' == "active"
                    && (not c.target.active || is_inactive c.target_user_active)))
                  "organization_target_principal_inactive")
                _
                λ _ _.
                  step
                    (ensure
                      (c.target.principal_type == "user"
                        || not (holds_of (λ r. not (r == "member")) role'))
                      "organization_management_role_requires_user_principal")
                    _
                    λ _ _.
                      step
                        (ensure (not (admin_overreach c status' role'))
                          "organization_owner_role_required")
                        _
                        λ _ modest.
                          write_as_manager-IsModest now target status' role' c
                            (kept_invitation status' c.target_membership) is_admin target_row
                            (ensure-eq-ok _ _ modest)

  -- A write by a manager whose own role is that of an administrator leaves the owners of every
  -- organization the same people, and no active owner stops being active.
  pub admin-KeepsOwners :
      (now : ℕ) (target status : String) (role : Option String) (own written_ : Membership)
      (db' : Db)
      → find (is_membership o actor) db.organization_memberships ≡ some own
      → own.management_role ≡ "admin"
      → upsert_organization_membership_as_manager now o actor target status role db
        ≡ ok (written_, db')
      → KeepsOwners db db'
  unfolding IsModest
  admin-KeepsOwners now target status role own written_ db' found admin done =
      subst IsModest done (upsert-IsModest now target status role own found admin)
