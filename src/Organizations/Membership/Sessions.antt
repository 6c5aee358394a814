-- ===== src/Organizations/Membership/Sessions.antt =====
-- A membership that is not active has no session and no pending code.
use mathlib.Core.Path.{subst}
use keylo.Base.Text.{◌⧺◌, trim}
use keylo.Base.Results.{Result, ok, err, ◌>>=◌, ok_or, bind-holds}
use keylo.Base.{
  ℕ, ◌≤◌, String, Bool, false, not, ◌&&◌, ◌||◌, Option, none, some, List, [], ◌∷◌, ◌≡◌, refl, arith,
  ◌==◌, any, count, find, retain, update_where,
}
use keylo.Session.Tables.{RefreshSession, same_text}
use keylo.Organizations.Tables.{
  Principal, Membership, AuthorizationCode, Db, Failure, bail, ensure, is_membership,
  is_known_class, end_session, is_live, in_organization,
}
use keylo.Organizations.Membership.{
  is_valid_membership_status, is_valid_management_role, holds_of, trimmed, written, is_scoped,
  end_scoped, is_pending_code, discard_codes, user_class, upsert_organization_membership,
}

module _ (now : ℕ) (organization_id principal_id : String) where
  abbrev pub is_theirs : RefreshSession → Bool
  is_theirs s = in_organization organization_id s && s.principal_id == principal_id

  module _ (reason : String) where
    abbrev ended : List RefreshSession → List RefreshSession
    ended ss = update_where (is_scoped now organization_id principal_id) (end_session now reason) ss

    count-ended :
        (later : ℕ) (ss : List RefreshSession)
        → now ≤ later
        → count (λ s. is_theirs s && is_live later s) (ended ss) ≡ 0
    count-ended later [] h = refl
    count-ended later (s ∷ ss) h = ground (arith, count-ended later ss h)

    retain-ended :
        (ss : List RefreshSession)
        → retain (λ s. not (is_theirs s)) (ended ss) ≡ retain (λ s. not (is_theirs s)) ss
    retain-ended [] = refl
    retain-ended (s ∷ ss) = ground (arith, retain-ended ss)

  no-code :
      (principals : List Principal) (cs : List AuthorizationCode)
      → any
          (is_pending_code principals organization_id principal_id)
          (retain (λ c. not (is_pending_code principals organization_id principal_id c)) cs)
        ≡ false
  no-code principals [] = refl
  no-code principals (c ∷ cs) = ground (arith, no-code principals cs)

  -- What is left of a person's sessions and codes in the organization.
  abbrev pub IsCutOff : ℕ → Db → Db → Type 0
  IsCutOff later db db' =
      (count (λ s. is_theirs s && is_live later s) db'.refresh_sessions ≡ 0)
      × (retain (λ s. not (is_theirs s)) db'.refresh_sessions
          ≡ retain (λ s. not (is_theirs s)) db.refresh_sessions)
      × (any (is_pending_code db'.principals organization_id principal_id)
            db'.oidc_authorization_codes
          ≡ false)

  module _ (later : ℕ) (db : Db) (h : now ≤ later) where
    unfoldable Cuts : Result (Membership × Db) Failure → Type 0
    Cuts (err e) = Unit
    Cuts (ok (m, db')) = (m.status == "active") ≡ false → IsCutOff later db db'

    step :
        {A : Type 0} (r : Result A Failure) (rest : A → Result (Membership × Db) Failure)
        → ((x : A) → r ≡ ok x → Cuts (rest x))
        → Cuts (r >>= rest)
    unfolding Cuts
    step r rest = bind-holds Cuts (λ e. tt) r rest

    written-Cuts :
        (status : String) (m : Membership) (ms : List Membership)
        → m.status ≡ status
        → Cuts (
            ok (
              m,
              record db {
                organization_memberships = ms;
                refresh_sessions =
                    end_scoped now organization_id principal_id status db.refresh_sessions;
                oidc_authorization_codes =
                    discard_codes db.principals organization_id principal_id status
                      db.oidc_authorization_codes;
              },
            ))
    unfolding Cuts
    written-Cuts status m ms same inactive =
        let off : (status == "active") ≡ false = cc (same, inactive) in
        rw off (
          count-ended ("organization_membership_" ⧺ status) later db.refresh_sessions h,
          retain-ended ("organization_membership_" ⧺ status) db.refresh_sessions,
          no-code db.principals db.oidc_authorization_codes,
        )

    status-written :
        (status : String) (invited_by role : Option String) (old : Option Membership)
        → (written now organization_id principal_id status invited_by role old).status ≡ status
    status-written status invited_by role none = refl
    status-written status invited_by role (some m) = refl

    upsert-Cuts :
        (status : String) (invited_by role : Option String)
        → Cuts (
            upsert_organization_membership now organization_id principal_id status invited_by role
              db)
    unfolding upsert_organization_membership
    upsert-Cuts status invited_by role =
        let s = trim status in
        let r = trimmed role in
        step (ensure (is_valid_membership_status s) "invalid_organization_membership_status") _
          λ _ _.
            step
              (ensure (not (holds_of (λ r. not (is_valid_management_role r)) r))
                "invalid_organization_management_role")
              _
              λ _ _.
                step
                  (ok_or (bail "organization_or_principal_not_found")
                    (find (λ o. o.id == organization_id) db.organizations))
                  _
                  λ o _.
                    step
                      (ok_or (bail "organization_or_principal_not_found")
                        (find (λ p. p.id == principal_id) db.principals))
                      _
                      λ p _.
                        step
                          (ensure (o.status == "active" || not (s == "pending" || s == "active"))
                            "organization_not_active")
                          _
                          λ _ _.
                            step (ensure (not (s == "active") || p.active) "principal_not_active") _
                              λ _ _.
                                step
                                  (ensure
                                    (not (
                                      p.principal_type == "user"
                                      && same_text (user_class db p) (some "external_customer")
                                      && not (o.kind == "customer")))
                                    "external_customer_requires_customer_organization")
                                  _
                                  λ _ _.
                                    step
                                      (ensure
                                        (not (holds_of (λ r. not (r == "member")) r)
                                          || p.principal_type == "user"
                                            && holds_of is_known_class (user_class db p))
                                        "organization_management_role_requires_user_principal")
                                      _
                                      λ _ _.
                                        let old =
                                          find (is_membership organization_id principal_id)
                                            db.organization_memberships in
                                        written-Cuts s
                                          (written now organization_id principal_id s invited_by r
                                            old)
                                          _ (status-written s invited_by r old)

  -- A membership that is written with a status other than active ends the principal's live sessions
  -- in that organization, from then on, and discards the pending codes; every session of another
  -- principal or another organization stays as it was.
  pub upsert-IsCutOff :
      (later : ℕ) (status : String) (invited_by role : Option String) (db db' : Db) (m : Membership)
      → now ≤ later
      → upsert_organization_membership now organization_id principal_id status invited_by role db
        ≡ ok (m, db')
      → (m.status == "active") ≡ false
      → IsCutOff later db db'
  unfolding Cuts
  upsert-IsCutOff later status invited_by role db db' m h done =
      subst (Cuts later db h) done (upsert-Cuts later db h status invited_by role)
