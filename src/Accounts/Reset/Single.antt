-- ===== src/Accounts/Reset/Single.antt =====
-- An account has at most one pending proof.
use keylo.Base.{
  ℕ, ◌+◌, ◌≤◌, String, Bool, not, ◌&&◌, Option, none, some, List, [], ◌∷◌, ◌≡◌, refl, arith, ◌==◌,
  eq_iff, count, count-append, update_where, Bool-cases, inl, inr,
}
use keylo.Base.Results.{Result, ok, err, ℤ, ◌>>=◌}
use keylo.Accounts.Tables.{
  User, OneTimeToken, AuditLog, Db, AccountError, is_pending, is_pending_of, revoke_proof,
  spend_proof, insert_proof, new_proof, select_proof, at_least_one,
}
use keylo.Accounts.Proofs.{flag, count-update_le, issued_of}
use keylo.Accounts.Reset.{
  reset, is_refused, reset_tables, accept_reset, consume_selected, eligible_user, issue_to,
  issue_password_reset_token, consume_password_reset_token, revoke_password_reset_token,
}
use keylo.Accounts.Reset.Runs.{Op, issue, consume, revoke, others, reset_of, perform, run}

module _ (user_id : String) where
  abbrev pub open_proofs : Db → ℕ
  open_proofs db = count (is_pending_of user_id) db.password_reset_tokens

  revoke_proof-mine :
      (now : ℕ) (t : OneTimeToken)
      → flag (is_pending_of user_id (revoke_proof now t)) ≤ flag (is_pending_of user_id t)
  revoke_proof-mine now t = ground arith

  spend_proof-mine :
      (now : ℕ) (t : OneTimeToken)
      → flag (is_pending_of user_id (spend_proof now t)) ≤ flag (is_pending_of user_id t)
  spend_proof-mine now t = ground arith

  revoked-le :
      (now : ℕ) (where_ : OneTimeToken → Bool) (ts : List OneTimeToken)
      → count (is_pending_of user_id) (update_where where_ (revoke_proof now) ts)
        ≤ count (is_pending_of user_id) ts
  revoked-le now where_ ts =
      count-update_le (is_pending_of user_id) where_ (revoke_proof now) (revoke_proof-mine now) ts

  accepted-le :
      (now : ℕ) (hash : String) (t : OneTimeToken) (db : Db)
      (logs : Result (List AuditLog) AccountError) (sessions browsers : ℕ)
      → open_proofs
          (reset_of db (
            logs >>= λ l. ok (
              reset t.user_id sessions browsers,
              record (reset_tables now hash t.id t.user_id db) { audit_logs = l },
            ))).1
        ≤ open_proofs db
  accepted-le now hash t db (err e) sessions browsers = omega arith
  accepted-le now hash t db (ok l) sessions browsers = omega (
    arith,
    revoked-le now (λ r. r.user_id == t.user_id && not (r.id == t.id) && is_pending r)
        (update_where (λ r. r.id == t.id) (spend_proof now) db.password_reset_tokens),
    count-update_le (is_pending_of user_id) (λ r. r.id == t.id) (spend_proof now)
        (spend_proof-mine now) db.password_reset_tokens,
  )

  consume_selected-le :
      (now : ℕ) (hashed : Option String) (audit_id : String) (db : Db)
      (row : Option (OneTimeToken × User))
      → open_proofs (reset_of db (consume_selected now hashed audit_id db row)).1 ≤ open_proofs db
  unfolding consume_selected accept_reset
  consume_selected-le now hashed audit_id db none = omega arith
  consume_selected-le now none audit_id db (some (t, u)) =
      ground (arith, revoked-le now (λ r. r.id == t.id) db.password_reset_tokens)
  consume_selected-le now (some hash) audit_id db (some (t, u)) =
      elim (Bool-cases (is_refused now t u)) [
        | inl refused ↦
            rw refused (ground (arith, revoked-le now (λ r. r.id == t.id) db.password_reset_tokens))
        | inr fine ↦ rw fine (accepted-le now hash t db _ _ _)
      ]

  revoked_all :
      (now : ℕ) (u : String) (ts : List OneTimeToken)
      → u ≡ user_id
      → count (is_pending_of user_id) (update_where (is_pending_of u) (revoke_proof now) ts) ≡ 0
  revoked_all now u [] same = refl
  revoked_all now u (t ∷ ts) same = ground (arith, revoked_all now u ts same)

  inserted-le :
      (t : OneTimeToken) (users : List User) (ts ts' : List OneTimeToken)
      → insert_proof t users ts ≡ ok ts'
      → count (is_pending_of user_id) ts'
        ≤ count (is_pending_of user_id) ts + flag (t.user_id == user_id)
  unfolding insert_proof
  inserted-le t users ts ts' e = ground (arith, count-append (is_pending_of user_id) ts (t ∷ []))

  issued-le :
      {A : Type 0} (a : A) (db : Db) (r : Result (List OneTimeToken) AccountError)
      → open_proofs db ≤ 1
      → ((ts : List OneTimeToken) → r ≡ ok ts → count (is_pending_of user_id) ts ≤ 1)
      → open_proofs
          (issued_of db (r >>= λ tokens. ok (a, record db { password_reset_tokens = tokens })))
        ≤ 1
  issued-le a db (err e) one le = one
  issued-le a db (ok ts) one le = le ts refl

  issue_to-le :
      (token_hash : String → String) (now : ℕ) (lifetime : ℤ) (id token : String) (db : Db)
      (account : Option User)
      → open_proofs db ≤ 1
      → open_proofs (issued_of db (issue_to token_hash now lifetime id token db account)) ≤ 1
  unfolding issue_to
  issue_to-le token_hash now lifetime id token db none one = one
  issue_to-le token_hash now lifetime id token db (some u) one =
      let ts = db.password_reset_tokens in
      let t = new_proof id u.id u.email (token_hash token) (now + at_least_one lifetime) in
      let kept = update_where (is_pending_of u.id) (revoke_proof now) ts in
      issued-le _ db _ one (λ ts' e. elim (Bool-cases (u.id == user_id)) [
        | inl mine ↦ ground (
          arith,
          mine,
          inserted-le t db.users kept ts' e,
          revoked_all now u.id ts ((eq_iff u.id user_id).0 mine),
        )
        | inr other ↦ ground (
          arith,
          other,
          inserted-le t db.users kept ts' e,
          revoked-le now (is_pending_of u.id) ts,
          one,
        )
      ])

  perform-le :
      (token_hash : String → String) (op : Op) (db : Db)
      → open_proofs db ≤ 1
      → open_proofs (perform token_hash op db).1 ≤ 1
  unfolding perform issue_password_reset_token consume_password_reset_token
      revoke_password_reset_token
  perform-le token_hash (issue now identifier lifetime id token) db one =
      issue_to-le token_hash now lifetime id token db (eligible_user identifier db.users) one
  perform-le token_hash (consume now token hashed audit_id) db one = omega (
    arith,
    one,
    consume_selected-le now hashed audit_id db
        (select_proof (token_hash token) db.users db.password_reset_tokens),
  )
  perform-le token_hash (revoke now id) db one =
      omega (arith, one, revoked-le now (λ t. t.id == id && is_pending t) db.password_reset_tokens)
  perform-le token_hash (others new) db one = one

  -- Every transaction on password resets keeps it so that an account has at most one pending proof:
  -- it holds after any run if it held before.
  pub run-single :
      (token_hash : String → String) (ops : List Op) (db : Db)
      → count (is_pending_of user_id) db.password_reset_tokens ≤ 1
      → count (is_pending_of user_id) (run token_hash ops db).password_reset_tokens ≤ 1
  unfolding run
  run-single token_hash [] db one = one
  run-single token_hash (op ∷ ops) db one =
      run-single token_hash ops (perform token_hash op db).1 (perform-le token_hash op db one)
