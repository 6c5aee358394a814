-- ===== src/Organizations/Membership/Joining.antt =====
-- Accepting an invitation, and accepting it again.
use keylo.Base.Results.{ok_or-eq-ok}
use mathlib.Core.Path.{subst}
use keylo.Base.Results.{Result, ok, err, ◌>>=◌, ok_or, bind-holds}
use keylo.Base.{
  ℕ, String, Bool, true, ◌&&◌, ◌⊎◌, some, List, [], ◌∷◌, ◌≡◌, refl, arith, ◌==◌, eq_iff, find,
  update_where, Bool-cases, inl, inr,
}
use keylo.Organizations.Tables.{
  Membership, Db, Failure, bail, ensure, is_membership, is_known_class, kind_fits,
}
use keylo.Organizations.Managers.Meaning.{ensure-eq-ok}
use keylo.Organizations.Membership.{accept_invitation, join_organization_membership}

module _ (now : ℕ) (organization_id principal_id : String) where
  abbrev activated : Membership → Membership
  activated m = record m { status = "active"; updated_at = now }

  abbrev is_invited : Membership → Bool
  is_invited m = is_membership organization_id principal_id m && m.status == "pending"

  find-activated :
      (ms : List Membership) (m : Membership)
      → find (is_membership organization_id principal_id) ms ≡ some m
      → m.status == "pending" ≡ true
      → find (is_membership organization_id principal_id) (update_where is_invited activated ms)
        ≡ some (activated m)
  find-activated [] m found invited = cc
  find-activated (r ∷ ms) m found invited =
      elim (Bool-cases (is_membership organization_id principal_id r)) [
        | inr other ↦
            ground (arith, other, find-activated ms m (ground (arith, other, found)) invited)
        | inl here ↦
            let same : some r ≡ some m = ground (arith, here, found) in
            let row : r ≡ m = cc in
            let invited' : r.status == "pending" ≡ true = cc in
            let first : some (activated r) ≡ some (activated m) = cc in
            ground (arith, here, invited', first)
      ]

  -- A membership row before and after the person joined.
  abbrev pub IsJoined : Db → Membership → Db → Type 0
  IsJoined db m db' =
      (old : Membership) × (find (is_membership organization_id principal_id)
          db.organization_memberships
        ≡ some old)
      × ((old.status ≡ "active") × (m ≡ old) ⊎ (old.status ≡ "pending") × (m ≡ activated old))
      × (find (is_membership organization_id principal_id) db'.organization_memberships ≡ some m)

  module _ (later : ℕ) (db : Db) where
    unfoldable Lasts : Result (Membership × Db) Failure → Type 0
    Lasts (err e) = Unit
    Lasts (ok (m, db')) =
        IsJoined db m db'
        × (join_organization_membership later organization_id principal_id db' ≡ ok (m, db'))

    step :
        {A : Type 0} (r : Result A Failure) (rest : A → Result (Membership × Db) Failure)
        → ((x : A) → r ≡ ok x → Lasts (rest x))
        → Lasts (r >>= rest)
    unfolding Lasts
    step r rest = bind-holds Lasts (λ e. tt) r rest

    accept-Lasts :
        (m : Membership)
        → find (is_membership organization_id principal_id) db.organization_memberships ≡ some m
        → ((ms : List Membership) (r : Membership)
            → find (is_membership organization_id principal_id) ms ≡ some r
            → r.status == "active" ≡ true
            → join_organization_membership later organization_id principal_id
                (record db { organization_memberships = ms })
              ≡ ok (r, record db { organization_memberships = ms }))
        → Lasts (accept_invitation now organization_id principal_id db m)
    unfolding Lasts accept_invitation
    accept-Lasts m found again = elim (Bool-cases (m.status == "active")) [
      | inl active ↦ rw active (
        (m, found, inl ((eq_iff m.status "active").0 active, refl), found),
        again db.organization_memberships m found active,
      )
      | inr other ↦ elim (Bool-cases (m.status == "pending")) [
        | inr refused ↦ rw (other, refused) tt
        | inl invited ↦
            let ms' = update_where is_invited activated db.organization_memberships in
            let found' = find-activated db.organization_memberships m found invited in
            rw (other, invited)
              (
                (m, found, inr ((eq_iff m.status "pending").0 invited, refl), found'),
                again ms' (activated m) found' refl,
              )
      ]
    ]

    join-Lasts : Lasts (join_organization_membership now organization_id principal_id db)
    unfolding join_organization_membership accept_invitation
    join-Lasts =
        step
          (ok_or (bail "organization_not_found")
            (find (λ o. o.id == organization_id) db.organizations))
          _
          λ o found_o.
            step (ensure (o.status == "active") "organization_not_active") _ λ _ active_o.
              step
                (ok_or (bail "organization_target_principal_not_found")
                  (find (λ p. p.id == principal_id) db.principals))
                _
                λ p found_p.
                  step
                    (ensure (p.principal_type == "user")
                      "organization_join_requires_user_principal")
                    _
                    λ _ human.
                      step
                        (ok_or (bail "organization_target_user_not_found")
                          (find (λ u. u.id == p.ref_id) db.users))
                        _
                        λ u found_u.
                          step
                            (ensure (p.active && u.active) "organization_target_principal_inactive")
                            _
                            λ _ live.
                              step
                                (ensure (is_known_class u.user_class)
                                  "organization_target_user_class_invalid")
                                _
                                λ _ known.
                                  step
                                    (ensure (kind_fits o u.user_class)
                                      "external_customer_requires_customer_organization")
                                    _
                                    λ _ fits.
                                      step
                                        (ok_or (bail "organization_invitation_not_found") (
                                          find (is_membership organization_id principal_id)
                                            db.organization_memberships))
                                        _
                                        λ m found_m.
                                          accept-Lasts m (ok_or-eq-ok _ _ found_m)
                                            (λ ms r found_r active.
                                              rw
                                                (
                                                  ok_or-eq-ok _ _ found_o,
                                                  ensure-eq-ok _ _ active_o,
                                                  ok_or-eq-ok _ _ found_p,
                                                  ensure-eq-ok _ _ human,
                                                  ok_or-eq-ok _ _ found_u,
                                                  ensure-eq-ok _ _ live,
                                                  ensure-eq-ok _ _ known,
                                                  ensure-eq-ok _ _ fits,
                                                  found_r,
                                                  active,
                                                )
                                                refl)

  -- Whoever joins had an invitation that was pending, or was an active member already, and is one
  -- now; joining again at any time, while nothing else changes, gives the same answer and changes
  -- nothing.
  pub join-IsJoined :
      (later : ℕ) (db db' : Db) (m : Membership)
      → join_organization_membership now organization_id principal_id db ≡ ok (m, db')
      → IsJoined db m db'
        × (join_organization_membership later organization_id principal_id db' ≡ ok (m, db'))
  unfolding Lasts
  join-IsJoined later db db' m done = subst (Lasts later db) done (join-Lasts later db)
