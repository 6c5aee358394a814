-- ===== src/Mfa/Recovery/Enrolment.antt =====
-- How many unused codes an enrolment leaves a user.
use mathlib.Core.Path.{subst}
use keylo.Base.Results.{Result, ok, err, ◌>>=◌}
use keylo.Base.{
  ℕ, ◌+◌, ◌≤◌, String, Bool, true, false, not, Option, none, some, List, [], ◌∷◌, ◌≡◌, refl, arith,
  ◌==◌, eq_iff, count, count-append, length, retain, eqb, ap, suc, if◌then◌else◌, Bool-cases, inl,
  inr,
}
use keylo.Mfa.Tables.{RecoveryCode, Db}
use keylo.Mfa.Totp.{enable_totp_credential}
use keylo.Mfa.Codes.{normalize_recovery_code}
use keylo.Mfa.Recovery.{
  MfaError, NewCode, hashed_row, hashed_rows, with_codes,
  enable_totp_credential_with_recovery_codes, is_unused_of,
}

abbrev pub answer_of : Db → Result (Bool × Db) MfaError → Bool × Db
answer_of db (ok answer) = answer
answer_of db (err e) = (false, db)

module _ (user : String) where
  abbrev pub unused : Db → ℕ
  unused db = count (is_unused_of user) db.recovery_codes

  -- New rows, of which the user has at most `n`.
  abbrev AreNew : String → ℕ → Result (List RecoveryCode) MfaError → Type 0
  AreNew u n (err e) = Unit
  AreNew u n (ok rows) = count (is_unused_of user) rows ≤ (if u == user then n else 0)

  added-AreNew :
      (u : String) (n : ℕ) (row : RecoveryCode) (rest : Result (List RecoveryCode) MfaError)
      → row.user_id ≡ u
      → AreNew u n rest
      → AreNew u (suc n) (rest >>= λ rows. ok (row ∷ rows))
  added-AreNew u n row (err e) mine new = tt
  added-AreNew u n row (ok rows) mine new =
      let owner : (row.user_id == user) ≡ (u == user) = ap (λ x. x == user) mine in
      ground (arith, owner, new)

  hashed_row-AreNew :
      (u : String) (n : ℕ) (c : NewCode) (normal hashed : Option String)
      (rest : Result (List RecoveryCode) MfaError)
      → AreNew u n rest
      → AreNew u (suc n) (hashed_row u c normal hashed >>= λ row. rest >>= λ rows. ok (row ∷ rows))
  hashed_row-AreNew u n c none hashed rest new = tt
  hashed_row-AreNew u n c (some normal) none rest new = tt
  hashed_row-AreNew u n c (some normal) (some hash) rest new = added-AreNew u n _ rest refl new

  hashed_rows-AreNew :
      (u : String) (codes : List NewCode) → AreNew u (length codes) (hashed_rows u codes)
  unfolding hashed_rows
  hashed_rows-AreNew u [] = ground arith
  hashed_rows-AreNew u (c ∷ codes) =
      hashed_row-AreNew u (length codes) c (normalize_recovery_code c.code) c.hashed _
        (hashed_rows-AreNew u codes)

  others-count :
      (u : String) (cs : List RecoveryCode)
      → count (is_unused_of user) (retain (λ c. not (c.user_id == u)) cs)
        ≤ (if u == user then 0 else count (is_unused_of user) cs)
  others-count u [] = ground arith
  others-count u (c ∷ cs) =
      ground (arith, others-count u cs, eq_iff u user, eq_iff c.user_id u, eq_iff c.user_id user)

  abbrev pub Grows : String → Db → Bool × Db → Type 0
  Grows u db (answer, db') = unused db' ≤ unused db + (if u == user then 10 else 0)

  with_codes-Grows :
      (u : String) (db enabled : Db) (answer : Bool) (rows : List RecoveryCode)
      → enabled.recovery_codes ≡ db.recovery_codes
      → AreNew u 10 (ok rows)
      → Grows u db (with_codes u rows (answer, enabled) db)
  with_codes-Grows u db enabled false rows same new = ground arith
  with_codes-Grows u db enabled true rows same new = rw same (
      ground (
        arith,
        new,
        others-count u db.recovery_codes,
        count-append (is_unused_of user) (retain (λ c. not (c.user_id == u)) db.recovery_codes)
            rows,
      ))

  enabled-Grows :
      (now : ℕ) (u : String) (step : ℕ) (db : Db) (r : Result (List RecoveryCode) MfaError)
      → AreNew u 10 r
      → Grows u db (
          answer_of db
            (r >>= λ rows. ok (with_codes u rows (enable_totp_credential now u step db) db)))
  unfolding enable_totp_credential
  enabled-Grows now u step db (err e) new = ground arith
  enabled-Grows now u step db (ok rows) new = with_codes-Grows u db _ _ rows refl new

  pub enrol-Grows :
      (now : ℕ) (u : String) (step : ℕ) (codes : List NewCode) (db : Db)
      → Grows u db (answer_of db (enable_totp_credential_with_recovery_codes now u step codes db))
  unfolding enable_totp_credential_with_recovery_codes
  enrol-Grows now u step codes db = elim (Bool-cases (eqb (length codes) 10)) [
    | inr wrong ↦ rw wrong (ground arith)
    | inl ten ↦
        let n : length codes ≡ 10 = ground (arith, ten) in
        rw ten (
          enabled-Grows now u step db (hashed_rows u codes)
            (subst (λ k. AreNew u k (hashed_rows u codes)) n (hashed_rows-AreNew u codes)))
  ]
