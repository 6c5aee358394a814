-- ===== src/Mfa/Recovery/OneTime.antt =====
-- A recovery code is used once.
use mathlib.Core.Path.{subst}
use keylo.Base.Results.{Result, ok, err, ◌>>=◌}
use keylo.Base.{
  ℕ, ◌+◌, ◌*◌, ◌≤◌, ◌<◌, String, Bool, true, false, ◌&&◌, Option, none, some, List, [], ◌∷◌, ◌≡◌,
  arith, ◌==◌, eq_iff, eq_refl, any, count, update_where, if◌then◌else◌, Bool-cases, Option-cases,
  inl, inr,
}
use keylo.Session.Tables.{is_none}
use keylo.Mfa.Tables.{RecoveryCode, Db}
use keylo.Mfa.Codes.{normalize_recovery_code}
use keylo.Mfa.Recovery.{
  MfaError, NewCode, enable_totp_credential_with_recovery_codes, is_unused_of, chosen, find_match,
  mark_used, use_found, consume_normalized, consume_recovery_code, record_found, record_normalized,
  consume_recovery_code_and_record_recent_verification,
}
use keylo.Mfa.Recovery.Enrolment.{answer_of, unused, enrol-Grows}

pub data Op : Type 0 where
  enrol : ℕ → String → ℕ → List NewCode → Op
  consume : ℕ → String → String → Op
  -- The second half of a consumption, whose first half read an earlier state of the table.
  resume : ℕ → String → Op
  consume_and_record : ℕ → String → String → String → ℕ → Op

same-row :
    (id user : String) (cs : List RecoveryCode)
    → any (λ r. r.id == id && is_none r.used_at && r.user_id == user) cs ≡ true
    → any (λ r. (r.id == id && is_none r.used_at) && is_unused_of user r) cs ≡ true
same-row id user [] there = cc
same-row id user (c ∷ cs) there = ground (arith, same-row id user cs)

named-row :
    (id user : String) (cs : List RecoveryCode)
    → any (λ r. r.id == id && is_unused_of user r) cs ≡ true
    → any (λ r. (r.id == id && is_none r.used_at) && is_unused_of user r) cs ≡ true
named-row id user [] there = cc
named-row id user (c ∷ cs) there = ground (arith, named-row id user cs)

same-id :
    (id user : String) (cs : List RecoveryCode)
    → any (λ r. r.id == id && is_none r.used_at && r.user_id == user) cs ≡ true
    → any (λ r. r.id == id && is_unused_of user r) cs ≡ true
same-id id user [] there = cc
same-id id user (c ∷ cs) there = ground (arith, same-id id user cs)

module _ (verify : String → String → Option Bool) (user : String) where
  unfoldable pub perform : Op → Db → Bool × Db
  perform (enrol now u step codes) db =
      answer_of db (enable_totp_credential_with_recovery_codes now u step codes db)
  perform (consume now u code) db = answer_of db (consume_recovery_code verify now u code db)
  perform (resume now id) db = mark_used verify now id db
  perform (consume_and_record now u code jti expires_at) db =
      answer_of db
        (consume_recovery_code_and_record_recent_verification verify now u code jti expires_at db)

  -- Whether an operation that is accepted uses a code of the user; a resumed one uses the row that
  -- its identifier names.
  abbrev pub uses : Op → Db → Bool
  uses (enrol now u step codes) db = false
  uses (consume now u code) db = u == user
  uses (resume now id) db = any (λ c. c.id == id && is_unused_of user c) db.recovery_codes
  uses (consume_and_record now u code jti expires_at) db = u == user

  abbrev pub enrols : Op → Bool
  enrols (enrol now u step codes) = u == user
  enrols _ = false

  -- How often a run uses a code of the user.
  unfoldable pub used : List Op → Db → ℕ
  used [] db = 0
  used (op ∷ ops) db =
      let (answer, db') = perform op db in (if answer && uses op db then 1 else 0) + used ops db'

  marked-le :
      (test : RecoveryCode → Bool) (now : ℕ) (cs : List RecoveryCode)
      → count (is_unused_of user) (update_where test (λ c. record c { used_at = some now }) cs)
        ≤ count (is_unused_of user) cs
  marked-le test now [] = omega arith
  marked-le test now (c ∷ cs) = ground (arith, marked-le test now cs)

  marked-lt :
      (test : RecoveryCode → Bool) (now : ℕ) (cs : List RecoveryCode)
      → any (λ c. test c && is_unused_of user c) cs ≡ true
      → count (is_unused_of user) (update_where test (λ c. record c { used_at = some now }) cs)
        < count (is_unused_of user) cs
  marked-lt test now [] there = cc
  marked-lt test now (c ∷ cs) there = ground (arith, marked-lt test now cs, marked-le test now cs)

  -- The row that a code matches is there, unused.
  abbrev IsFound : String → List RecoveryCode → Result (Option RecoveryCode) MfaError → Type 0
  IsFound u cs (ok (some c)) =
      (c.user_id ≡ u)
      × (any (λ r. r.id == c.id && is_none r.used_at && r.user_id == c.user_id) cs ≡ true)
  IsFound u cs _ = Unit

  later-IsFound :
      (u : String) (r : RecoveryCode) (cs : List RecoveryCode)
      (o : Result (Option RecoveryCode) MfaError)
      → IsFound u cs o
      → IsFound u (r ∷ cs) o
  later-IsFound u r cs (err e) found = tt
  later-IsFound u r cs (ok none) found = tt
  later-IsFound u r cs (ok (some c)) (mine, there) = (mine, ground (arith, there))

  chosen-IsFound :
      (u : String) (r : RecoveryCode) (cs : List RecoveryCode) (matches : Option Bool)
      (rest : Result (Option RecoveryCode) MfaError)
      → is_unused_of u r ≡ true
      → IsFound u cs rest
      → IsFound u (r ∷ cs) (chosen verify r matches rest)
  chosen-IsFound u r cs none rest unused_ found = tt
  chosen-IsFound u r cs (some true) rest unused_ found = (
    (eq_iff r.user_id u).0 (ground (arith, unused_)),
    ground (arith, unused_, eq_refl r.id, eq_refl r.user_id),
  )
  chosen-IsFound u r cs (some false) rest unused_ found = later-IsFound u r cs rest found

  find_match-IsFound :
      (normalized u : String) (cs : List RecoveryCode)
      → IsFound u cs (find_match verify normalized u cs)
  unfolding find_match
  find_match-IsFound normalized u [] = tt
  find_match-IsFound normalized u (r ∷ cs) =
      let found = find_match-IsFound normalized u cs in
      elim (Bool-cases (is_unused_of u r)) [
        | inl unused_ ↦
            rw unused_ (chosen-IsFound u r cs (verify normalized r.code_hash) _ unused_ found)
        | inr other ↦ rw other (later-IsFound u r cs _ found)
      ]

  abbrev Pays : Bool → Db → Bool × Db → Type 0
  Pays counts db (answer, db') =
      (if answer && counts then 1 else 0) + unused user db' ≤ unused user db

  use_found-Pays :
      (now : ℕ) (u : String) (db : Db) (r : Result (Option RecoveryCode) MfaError)
      → IsFound u db.recovery_codes r
      → Pays (u == user) db (answer_of db (r >>= λ found. ok (use_found verify now db found)))
  use_found-Pays now u db (err e) found = ground arith
  use_found-Pays now u db (ok none) found = ground arith
  use_found-Pays now u db (ok (some c)) (mine, there) =
      let test : RecoveryCode → Bool = λ r. r.id == c.id && is_none r.used_at in
      elim (Bool-cases (u == user)) [
        | inr other ↦ rw other (ground (arith, marked-le test now db.recovery_codes))
        | inl same ↦
            let owner : c.user_id ≡ user = cc (mine, (eq_iff u user).0 same) in
            let there' : any (λ r. test r && is_unused_of user r) db.recovery_codes ≡ true =
              same-row c.id user db.recovery_codes (
                subst
                  (λ x.
                    any (λ r. r.id == c.id && is_none r.used_at && r.user_id == x) db.recovery_codes
                    ≡ true)
                  owner there) in
            rw same (ground (arith, marked-lt test now db.recovery_codes there'))
      ]

  record_found-Pays :
      (now : ℕ) (u jti : String) (expires_at : ℕ) (db : Db)
      (r : Result (Option RecoveryCode) MfaError)
      → IsFound u db.recovery_codes r
      → Pays
          (u == user)
          db
          (answer_of db (r >>= λ found. ok (record_found verify now u jti expires_at db found)))
  record_found-Pays now u jti expires_at db (err e) found = ground arith
  record_found-Pays now u jti expires_at db (ok none) found = ground arith
  record_found-Pays now u jti expires_at db (ok (some c)) (mine, there) =
      let test : RecoveryCode → Bool = λ r. r.id == c.id in
      elim (Bool-cases (u == user)) [
        | inr other ↦ rw other (ground (arith, marked-le test now db.recovery_codes))
        | inl same ↦
            let owner : c.user_id ≡ user = cc (mine, (eq_iff u user).0 same) in
            let there' : any (λ r. test r && is_unused_of user r) db.recovery_codes ≡ true =
              same-id c.id user db.recovery_codes (
                subst
                  (λ x.
                    any (λ r. r.id == c.id && is_none r.used_at && r.user_id == x) db.recovery_codes
                    ≡ true)
                  owner there) in
            rw same (ground (arith, marked-lt test now db.recovery_codes there'))
      ]

  perform-pays :
      (op : Op) (db : Db)
      → let (answer, db') = perform op db in
        (if answer && uses op db then 1 else 0) + unused user db'
        ≤ unused user db + (if enrols op then 10 else 0)
  unfolding perform consume_recovery_code consume_normalized record_normalized
      consume_recovery_code_and_record_recent_verification
  perform-pays (enrol now u step codes) db = ground (arith, enrol-Grows user now u step codes db)
  perform-pays (resume now id) db =
      let test : RecoveryCode → Bool = λ c. c.id == id && is_none c.used_at in
      elim (Bool-cases (any (λ c. c.id == id && is_unused_of user c) db.recovery_codes)) [
        | inr other ↦ rw other (ground (arith, marked-le test now db.recovery_codes))
        | inl mine ↦
            let lt =
              marked-lt test now db.recovery_codes (named-row id user db.recovery_codes mine) in
            rw mine (ground (arith, lt))
      ]
  perform-pays (consume now u code) db = elim (Option-cases (normalize_recovery_code code)) [
    | inl bad ↦ rw bad (ground arith)
    | inr (n, normal) ↦
        rw normal
          (omega (arith, use_found-Pays now u db _ (find_match-IsFound n u db.recovery_codes)))
  ]
  perform-pays (consume_and_record now u code jti expires_at) db =
      elim (Option-cases (normalize_recovery_code code)) [
        | inl bad ↦ rw bad (ground arith)
        | inr (n, normal) ↦ rw normal (
            omega (
              arith,
              record_found-Pays now u jti expires_at db _
                  (find_match-IsFound n u db.recovery_codes),
            ))
      ]

  -- In any run of enrolments and consumptions, by any users, whatever the hash accepts, a user's
  -- recovery codes are used at most as often as the user has unused ones at the start, plus ten for
  -- each enrolment of the user.
  pub used-le-unused :
      (ops : List Op) (db : Db)
      → used ops db ≤ count (is_unused_of user) db.recovery_codes + 10 * count enrols ops
  unfolding used
  used-le-unused [] db = omega arith
  used-le-unused (op ∷ ops) db =
      ground (arith, perform-pays op db, used-le-unused ops (perform op db).1)
