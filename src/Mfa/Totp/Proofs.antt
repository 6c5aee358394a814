-- ===== src/Mfa/Totp/Proofs.antt =====
-- A time step is good for one verification, and a verification for one token until it expires.
use keylo.Base.{
  ℕ, ◌+◌, ◌≤◌, ◌<◌, String, Bool, true, false, not, ◌&&◌, ◌||◌, ◌⊎◌, count, some, List, [], ◌∷◌,
  ◌++◌, ◌≡◌, refl, sym, arith, ◌==◌, eq_iff, eq_refl, any, retain, ltb, eqb, is_some, if◌then◌else◌,
  update_where, Bool-cases, inl, inr,
}
use keylo.Mfa.Tables.{MfaTotpCredential, RecentVerification, Db}
use keylo.Mfa.Totp.{
  is_pending, is_before, takes, is_proof, enable_totp_credential, save_recent_verification,
  consume_totp_step_and_record_recent_verification, has_recent_mfa_verification,
  delete_totp_credential,
}

-- A verification by some user, with any token, or an enrolment that is confirmed.
pub data Call : Type 0 where
  verify : ℕ → String → ℕ → String → ℕ → Call
  enable : ℕ → String → ℕ → Call

abbrev pub perform : Call → Db → Bool × Db
perform (verify now user_id step token_jti expires_at) =
    consume_totp_step_and_record_recent_verification now user_id step token_jti expires_at
perform (enable now user_id step) = enable_totp_credential now user_id step

module _ (user : String) (step : ℕ) where
  abbrev pub verifies : Call → Bool
  verifies (verify now u s jti expires_at) = u == user && eqb s step
  verifies (enable now u s) = false

  -- How many verifications of the user with this step a run accepts.
  unfoldable pub accepted : List Call → Db → ℕ
  accepted [] db = 0
  accepted (call ∷ calls) db =
      let (answer, db') = perform call db in
      (if answer && verifies call then 1 else 0) + accepted calls db'

  -- A credential of the user that may still take the step: it is not confirmed yet, or the last step
  -- that it took is an earlier one.
  abbrev pub may_take : MfaTotpCredential → Bool
  may_take c =
      c.user_id == user && (not (is_some c.enabled_at) || is_before step c.last_verified_step)

  verified : ℕ → String → ℕ → List MfaTotpCredential → List MfaTotpCredential
  verified now u s =
      update_where (takes u s) (λ c. record c { last_verified_step = some s; updated_at = now })

  may_take-verified :
      (now : ℕ) (u : String) (s : ℕ) (cs : List MfaTotpCredential)
      → count may_take (verified now u s cs) ≤ count may_take cs
  unfolding verified
  may_take-verified now u s [] = omega arith
  may_take-verified now u s (c ∷ cs) = ground (arith, may_take-verified now u s cs)

  may_take-spent :
      (now : ℕ) (cs : List MfaTotpCredential)
      → any (takes user step) cs ≡ true
      → count may_take (verified now user step cs) < count may_take cs
  unfolding verified
  may_take-spent now [] h = cc
  may_take-spent now (c ∷ cs) h =
      ground (arith, may_take-spent now cs, may_take-verified now user step cs)

  may_take-taken :
      (now : ℕ) (u : String) (s : ℕ) (cs : List MfaTotpCredential)
      → u ≡ user
      → s ≡ step
      → any (takes u s) cs ≡ true
      → count may_take (verified now u s cs) < count may_take cs
  may_take-taken now u s cs same_user same_step taken =
      rw (same_user, same_step) (may_take-spent now cs (rw (sym same_user, sym same_step) taken))

  may_take-enabled :
      (now : ℕ) (u : String) (s : ℕ) (cs : List MfaTotpCredential)
      → count may_take (
          update_where
            (is_pending u)
            (λ c. record c { enabled_at = some now; last_verified_step = some s; updated_at = now })
            cs)
        ≤ count may_take cs
  may_take-enabled now u s [] = omega arith
  may_take-enabled now u s (c ∷ cs) = ground (arith, may_take-enabled now u s cs)

  perform-pays :
      (call : Call) (db : Db)
      → let (answer, db') = perform call db in
        (if answer && verifies call then 1 else 0) + count may_take db'.totp_credentials
        ≤ count may_take db.totp_credentials
  unfolding enable_totp_credential consume_totp_step_and_record_recent_verification verified
  perform-pays (enable now u s) db = ground (arith, may_take-enabled now u s db.totp_credentials)
  perform-pays (verify now u s jti expires_at) db =
      elim (Bool-cases (any (takes u s) db.totp_credentials)) [
        | inr refused ↦ rw refused (omega arith)
        | inl taken ↦ elim (Bool-cases (u == user && eqb s step)) [
          | inl same ↦
              rw (taken, same)
                (omega (
                  arith,
                  may_take-taken now u s db.totp_credentials
                      ((eq_iff u user).0 (ground (arith, same))) (ground (arith, same)) taken,
                ))
          | inr other ↦
              rw (taken, other) (omega (arith, may_take-verified now u s db.totp_credentials))
        ]
      ]

  -- In any run of verifications and confirmed enrolments, by any users, a user's time step is
  -- accepted at most as often as the user has credentials that may still take it at the start.
  pub accepted-le-may_take :
      (calls : List Call) (db : Db) → accepted calls db ≤ count may_take db.totp_credentials
  unfolding accepted
  accepted-le-may_take [] db = omega arith
  accepted-le-may_take (call ∷ calls) db =
      omega (arith, perform-pays call db, accepted-le-may_take calls (perform call db).1)

recent-updated :
    (now later : ℕ) (u jti : String) (expires_at : ℕ) (vs : List RecentVerification)
    → later < expires_at
    → any (is_proof u jti) vs ≡ true
    → any
        (λ v. is_proof u jti v && ltb later v.expires_at)
        (update_where
          (is_proof u jti)
          (λ v. record v { verified_at = now; expires_at = expires_at })
          vs)
      ≡ true
recent-updated now later u jti expires_at [] h known = cc
recent-updated now later u jti expires_at (v ∷ vs) h known =
    ground (arith, recent-updated now later u jti expires_at vs h)

recent-added :
    (now later : ℕ) (u jti : String) (expires_at : ℕ) (vs : List RecentVerification)
    → later < expires_at
    → any
        (λ v. is_proof u jti v && ltb later v.expires_at)
        (vs
          ++ record { user_id = u; token_jti = jti; verified_at = now; expires_at = expires_at }
            ∷ [])
      ≡ true
recent-added now later u jti expires_at [] h = ground (arith, eq_refl u, eq_refl jti)
recent-added now later u jti expires_at (v ∷ vs) h =
    ground (arith, recent-added now later u jti expires_at vs h)

recent-save :
    (now later : ℕ) (u jti : String) (expires_at : ℕ) (vs : List RecentVerification)
    → later < expires_at
    → any
        (λ v. is_proof u jti v && ltb later v.expires_at)
        (save_recent_verification now u jti expires_at vs)
      ≡ true
unfolding save_recent_verification
recent-save now later u jti expires_at vs h = elim (Bool-cases (any (is_proof u jti) vs)) [
  | inl known ↦ rw known (recent-updated now later u jti expires_at vs h known)
  | inr unknown ↦ rw unknown (recent-added now later u jti expires_at vs h)
]

recent-removed :
    (later : ℕ) (u jti : String) (vs : List RecentVerification)
    → any (λ v. is_proof u jti v && ltb later v.expires_at) (retain (λ v. not (v.user_id == u)) vs)
      ≡ false
recent-removed later u jti [] = refl
recent-removed later u jti (v ∷ vs) = ground (arith, recent-removed later u jti vs)

-- A verification that is accepted counts for its token until it expires; one that is refused changes
-- nothing.
pub verification-recent :
    (now later step expires_at : ℕ) (user_id token_jti : String) (db : Db)
    → later < expires_at
    → let (answer, db') =
        consume_totp_step_and_record_recent_verification now user_id step token_jti expires_at db in
      ((answer ≡ true) × (has_recent_mfa_verification later user_id token_jti db' ≡ true))
      ⊎ ((answer ≡ false) × (db' ≡ db))
unfolding consume_totp_step_and_record_recent_verification has_recent_mfa_verification
verification-recent now later step expires_at u jti db h =
    elim (Bool-cases (any (takes u step) db.totp_credentials)) [
      | inl taken ↦ inl (
        ground (arith, taken),
        rw taken (recent-save now later u jti expires_at db.recent_verifications h),
      )
      | inr refused ↦ inr (ground (arith, refused), ground (arith, refused))
    ]

-- Deleting a user's credential leaves no token of the user with a recent verification, at any time;
-- if there was no credential nothing changes.
pub delete-forgets :
    (later : ℕ) (user_id token_jti : String) (db : Db)
    → let (deleted, db') = delete_totp_credential user_id db in
      ((deleted ≡ true) × (has_recent_mfa_verification later user_id token_jti db' ≡ false))
      ⊎ ((deleted ≡ false) × (db' ≡ db))
unfolding delete_totp_credential has_recent_mfa_verification
delete-forgets later u jti db = elim (Bool-cases (any (λ c. c.user_id == u) db.totp_credentials)) [
  | inl deleted ↦
      inl (ground (arith, deleted), rw deleted (recent-removed later u jti db.recent_verifications))
  | inr missing ↦ inr (ground (arith, missing), ground (arith, missing))
]
