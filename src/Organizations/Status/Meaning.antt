-- ===== src/Organizations/Status/Meaning.antt =====
-- The steps of an organization's life, and what an organization that is not active keeps.
use mathlib.Core.Path.{subst}
use keylo.Base.Text.{◌⧺◌, trim}
use keylo.Base.Results.{Result, ok, err, ◌>>=◌, bind-holds}
use keylo.Base.{
  ◌⊎◌, ◌≢◌, ◌∙◌, find-update_where, retain-update_where, ℕ, ◌≤◌, String, true, false, not, ◌&&◌,
  Option, none, some, List, [], ◌∷◌, ◌≡◌, refl, arith, ◌==◌, eq_iff, any, count, find, retain,
  update_where, Bool-cases, inl, inr,
}
use keylo.Session.Tables.{RefreshSession}
use keylo.Organizations.Tables.{
  Organization, AuthorizationCode, Db, Failure, ensure, end_session, is_live, in_organization,
}
use keylo.Organizations.Managers.Meaning.{ensure-eq-ok}
use keylo.Organizations.Status.{
  OrganizationStatusChange, is_valid_organization_status, is_valid_organization_status_transition,
  with_status, is_pending_code, leaves_active, status_tables, change_status,
  set_organization_status,
}

-- The lifecycle as a relation: an archived organization comes back by way of the active state only.
pub data IsStep : String → String → Type 0 where
  stay : {s : String} → IsStep s s
  disable : IsStep "active" "disabled"
  enable : IsStep "disabled" "active"
  archive_active : IsStep "active" "archived"
  archive_disabled : IsStep "disabled" "archived"
  restore : IsStep "archived" "active"

same-IsStep : (a b x y : String) → (a == x && b == y) ≡ true → IsStep x y → IsStep a b
same-IsStep a b x y same s =
    let first : x ≡ a = cc ((eq_iff a x).0 (ground (arith, same))) in
    let second : y ≡ b = cc ((eq_iff b y).0 (ground (arith, same))) in
    subst (λ t. IsStep a t) second (subst (λ t. IsStep t y) first s)

transition-IsStep :
    (current next : String)
    → is_valid_organization_status_transition current next ≡ true
    → IsStep current next
transition-IsStep a b valid = elim (Bool-cases (a == b)) [
  | inl same ↦ subst (λ t. IsStep a t) ((eq_iff a b).0 same) stay
  | inr n1 ↦ elim (Bool-cases (a == "active" && b == "disabled")) [
    | inl same ↦ same-IsStep a b "active" "disabled" same disable
    | inr n2 ↦ elim (Bool-cases (a == "active" && b == "archived")) [
      | inl same ↦ same-IsStep a b "active" "archived" same archive_active
      | inr n3 ↦ elim (Bool-cases (a == "disabled" && b == "active")) [
        | inl same ↦ same-IsStep a b "disabled" "active" same enable
        | inr n4 ↦ elim (Bool-cases (a == "disabled" && b == "archived")) [
          | inl same ↦ same-IsStep a b "disabled" "archived" same archive_disabled
          | inr n5 ↦
              same-IsStep a b "archived" "active" (ground (arith, valid, n1, n2, n3, n4, n5))
                restore
        ]
      ]
    ]
  ]
]

module _ (now : ℕ) (organization_id : String) where
  module _ (reason : String) where
    abbrev ended : List RefreshSession → List RefreshSession
    ended ss =
        update_where (λ s. in_organization organization_id s && is_live now s)
          (end_session now reason) ss

    count-ended :
        (later : ℕ) (ss : List RefreshSession)
        → now ≤ later
        → count (λ s. in_organization organization_id s && is_live later s) (ended ss) ≡ 0
    count-ended later [] h = refl
    count-ended later (s ∷ ss) h = ground (arith, count-ended later ss h)

    retain-ended :
        (ss : List RefreshSession)
        → retain (λ s. not (in_organization organization_id s)) (ended ss)
          ≡ retain (λ s. not (in_organization organization_id s)) ss
    retain-ended [] = refl
    retain-ended (s ∷ ss) = ground (arith, retain-ended ss)

  no-code :
      (cs : List AuthorizationCode)
      → any
          (is_pending_code organization_id)
          (retain (λ c. not (is_pending_code organization_id c)) cs)
        ≡ false
  no-code [] = refl
  no-code (c ∷ cs) = ground (arith, no-code cs)

  -- What is left of an organization's sessions and codes.
  abbrev pub IsClosed : ℕ → Db → Db → Type 0
  IsClosed later db db' =
      (count (λ s. in_organization organization_id s && is_live later s) db'.refresh_sessions ≡ 0)
      × (retain (λ s. not (in_organization organization_id s)) db'.refresh_sessions
          ≡ retain (λ s. not (in_organization organization_id s)) db.refresh_sessions)
      × (any (is_pending_code organization_id) db'.oidc_authorization_codes ≡ false)

  status_tables-IsClosed :
      (later : ℕ) (db : Db) (previous status : String)
      → now ≤ later
      → leaves_active previous status ≡ true
      → IsClosed later db (status_tables now organization_id previous status db)
  status_tables-IsClosed later db previous status h leaves = rw leaves (
    count-ended ("organization_" ⧺ status) later db.refresh_sessions h,
    retain-ended ("organization_" ⧺ status) db.refresh_sessions,
    no-code db.oidc_authorization_codes,
  )

  -- The organization leaves the active state, or it does not.
  abbrev pub IsLeaving : String → String → Type 0
  IsLeaving previous status = (previous ≡ "active") × (status ≢ "active")

  abbrev pub IsKept : Db → Db → Type 0
  IsKept db db' =
      (db'.refresh_sessions ≡ db.refresh_sessions)
      × (db'.oidc_authorization_codes ≡ db.oidc_authorization_codes)

  -- What a change has done to the row that it found, to the other organizations, and to the sessions
  -- and codes.
  pub record IsChange (later : ℕ) (status : String) (db : Db) (change : OrganizationStatusChange)
      (db' : Db) : Type 0 where
    pub row : Organization
    pub found : find (λ r. r.id == organization_id) db.organizations ≡ some row
    pub previous : change.previous_status ≡ row.status
    pub answer : change.organization ≡ record row { status = status; updated_at = now }
    pub written : find (λ r. r.id == organization_id) db'.organizations ≡ some change.organization
    pub others :
        retain (λ r. not (r.id == organization_id)) db'.organizations
        ≡ retain (λ r. not (r.id == organization_id)) db.organizations
    pub allowed : IsStep row.status status
    pub consequence :
        (IsLeaving row.status status × IsClosed later db db')
        ⊎ (((row.status ≢ "active") ⊎ (status ≡ "active")) × IsKept db db')

  consequence-of :
      (later : ℕ) (db : Db) (previous status : String)
      → now ≤ later
      → let db' = status_tables now organization_id previous status db in
        (IsLeaving previous status × IsClosed later db db')
        ⊎ (((previous ≢ "active") ⊎ (status ≡ "active")) × IsKept db db')
  consequence-of later db previous status h = elim (Bool-cases (previous == "active")) [
    | inr other ↦
        inr (inl (λ same. cc (other, (eq_iff previous "active").1 same)), rw other (refl, refl))
    | inl active ↦ elim (Bool-cases (status == "active")) [
      | inl stays ↦ inr (inr ((eq_iff status "active").0 stays), rw (active, stays) (refl, refl))
      | inr leaves ↦ inl (
        ((eq_iff previous "active").0 active, λ same. cc (leaves, (eq_iff status "active").1 same)),
        status_tables-IsClosed later db previous status h (ground (arith, active, leaves)),
      )
    ]
  ]

  organizations-of :
      (db : Db) (previous status : String)
      → (status_tables now organization_id previous status db).organizations
        ≡ update_where (λ o. o.id == organization_id) (with_status now status) db.organizations
  organizations-of db previous status = elim (Bool-cases (leaves_active previous status)) [
    | inl leaves ↦ rw leaves refl
    | inr stays ↦ rw stays refl
  ]

  find-named :
      (os : List Organization) (o : Organization)
      → find (λ r. r.id == organization_id) os ≡ some o
      → (o.id == organization_id) ≡ true
  find-named [] o found = cc
  find-named (r ∷ os) o found = ground (arith, find-named os o, found)

  module _ (later : ℕ) (status : String) (db : Db) (h : now ≤ later) where
    unfoldable Changes : Result (Option OrganizationStatusChange × Db) Failure → Type 0
    Changes (err e) = Unit
    Changes (ok (none, db')) = Unit
    Changes (ok (some change, db')) = IsChange later (trim status) db change db'

    step :
        {A : Type 0} (r : Result A Failure)
        (rest : A → Result (Option OrganizationStatusChange × Db) Failure)
        → ((x : A) → r ≡ ok x → Changes (rest x))
        → Changes (r >>= rest)
    unfolding Changes
    step r rest = bind-holds Changes (λ e. tt) r rest

    changed :
        (o : Organization)
        → find (λ r. r.id == organization_id) db.organizations ≡ some o
        → IsStep o.status (trim status)
        → Changes (
            ok (
              some (record {
                previous_status = o.status;
                organization = with_status now (trim status) o;
              }),
              status_tables now organization_id o.status (trim status) db,
            ))
    unfolding Changes
    changed o found valid =
        let next = trim status in
        let named = find-named db.organizations o found in
        record {
          row = o;
          found = found;
          previous = refl;
          answer = refl;
          written = rw (organizations-of db o.status next) (
              find-update_where (λ r. r.id == organization_id) (λ r. r.id == organization_id)
                (with_status now next) (λ r. refl) db.organizations o found
              ∙ rw named refl);
          others = rw (organizations-of db o.status next) (
              retain-update_where (λ r. r.id == organization_id) (with_status now next) (λ r. refl)
                db.organizations);
          allowed = valid;
          consequence = consequence-of later db o.status next h;
        }

    change-Changes :
        (row : Option Organization)
        → find (λ r. r.id == organization_id) db.organizations ≡ row
        → Changes (change_status now organization_id (trim status) db row)
    unfolding change_status Changes
    change-Changes none found = tt
    change-Changes (some o) found =
        step
          (ensure (is_valid_organization_status_transition o.status (trim status))
            "invalid_organization_status_transition")
          _
          λ _ valid.
            changed o found (transition-IsStep o.status (trim status) (ensure-eq-ok _ _ valid))

    set-Changes : Changes (set_organization_status now organization_id status db)
    unfolding set_organization_status
    set-Changes =
        step (ensure (is_valid_organization_status (trim status)) "invalid_organization_status") _
          λ _ _. change-Changes (find (λ o. o.id == organization_id) db.organizations) refl

  -- A change of status that is made is a step of the lifecycle from the status that was stored; the
  -- row then has the new status and is what the answer shows, and the other organizations stay as
  -- they were. A step from active to another status leaves the organization without a live session,
  -- from then on, and without a pending code, and every session of other organizations as it was; any
  -- other step leaves all sessions and codes alone.
  pub set_organization_status-IsChange :
      (later : ℕ) (status : String) (db db' : Db) (change : OrganizationStatusChange)
      → now ≤ later
      → set_organization_status now organization_id status db ≡ ok (some change, db')
      → IsChange later (trim status) db change db'
  unfolding Changes
  set_organization_status-IsChange later status db db' change h done =
      subst (Changes later status db h) done (set-Changes later status db h)
