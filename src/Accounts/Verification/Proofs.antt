-- ===== src/Accounts/Verification/Proofs.antt =====
-- What each transaction on address verification takes from the pending proofs, and what it adds.
use keylo.Base.{
  ℕ, ◌+◌, ◌≤◌, String, Bool, true, not, ◌&&◌, ◌||◌, Option, none, some, List, ◌≡◌, refl, arith,
  ◌==◌, find, count, update_where, Bool-cases, inl, inr,
}
use keylo.Base.Results.{Result, ok, err, ℤ, ◌>>=◌}
use keylo.Accounts.Tables.{
  User, OneTimeToken, AuditLog, Db, AccountError, is_pending, is_pending_of, revoke_proof,
  new_proof, at_least_one,
}
use keylo.Accounts.Proofs.{
  can_spend, flag, count-update_le, revoke_proof-flag, IsSelected, select_proof-IsSelected,
  pending-insert_proof, spend-selected, issued_of,
}
use keylo.Accounts.Verification.{
  verified, is_refused, spend_row, verify_email, mark_verified, consume_selected, issue_to,
  issue_email_verification_token, consume_email_verification_token, revoke_email_verification_token,
}
use keylo.Accounts.Verification.Runs.{verified_of}

module _ (h : String) where
  abbrev pub pending : Db → ℕ
  pending db = count (can_spend h) db.email_verification_tokens

  -- A consumption with the digest `x` takes one pending row of `x` when it accepts.
  abbrev pub Pays : String → Db → Bool × Db → Type 0
  Pays x db (accepted, db') = flag (accepted && x == h) + pending db' ≤ pending db

  -- What `mark_verified` leaves: the proofs as they were.
  abbrev KeepsProofs : Db → Result Db AccountError → Type 0
  KeepsProofs db (ok db') = db'.email_verification_tokens ≡ db.email_verification_tokens
  KeepsProofs db (err e) = Unit

  audited-KeepsProofs :
      (now : ℕ) (user_id : String) (db : Db) (logs : Result (List AuditLog) AccountError)
      → KeepsProofs db (
          logs >>= λ l. ok (record db {
            users = update_where (λ r. r.id == user_id) (verify_email now) db.users;
            audit_logs = l;
          }))
  audited-KeepsProofs now user_id db (ok l) = refl
  audited-KeepsProofs now user_id db (err e) = tt

  mark_verified-KeepsProofs :
      (now : ℕ) (audit_id : String) (u : User) (user_id : String) (db : Db)
      → KeepsProofs db (mark_verified now audit_id u user_id db)
  unfolding mark_verified
  mark_verified-KeepsProofs now audit_id u user_id db = elim (Bool-cases u.email_verified) [
    | inl already ↦ rw already refl
    | inr first ↦ rw first (audited-KeepsProofs now user_id db _)
  ]

  marked-Pays :
      (now : ℕ) (x : String) (t : OneTimeToken) (u : User) (db : Db) (r : Result Db AccountError)
      → IsSelected x db.users db.email_verification_tokens (some (t, u))
      → is_pending t ≡ true
      → KeepsProofs (spend_row now t.id db) r
      → Pays x db (verified_of db (r >>= λ db'. ok (verified t.user_id, db')))
  marked-Pays now x t u db (err e) i fresh keeps = ground arith
  marked-Pays now x t u db (ok db') i fresh keeps =
      rw keeps
        (omega (arith, spend-selected h x now db.users db.email_verification_tokens t u i fresh))

  consume_selected-Pays :
      (now : ℕ) (audit_id x : String) (db : Db) (row : Option (OneTimeToken × User))
      → IsSelected x db.users db.email_verification_tokens row
      → Pays x db (verified_of db (consume_selected now audit_id db row))
  unfolding consume_selected
  consume_selected-Pays now audit_id x db none i = ground arith
  consume_selected-Pays now audit_id x db (some (t, u)) i = elim (Bool-cases (is_refused now t u)) [
    | inl refused ↦ rw refused (
        ground (
          arith,
          count-update_le (can_spend h) (λ r. r.id == t.id) (revoke_proof now)
              (revoke_proof-flag h now) db.email_verification_tokens,
        ))
    | inr fine ↦ rw fine (
        marked-Pays now x t u db _ i (ground (arith, fine))
          (mark_verified-KeepsProofs now audit_id u t.user_id (spend_row now t.id db)))
  ]

  pub consume-Pays :
      (token_hash : String → String) (now : ℕ) (token audit_id : String) (db : Db)
      → Pays
          (token_hash token)
          db
          (verified_of db (consume_email_verification_token token_hash now token audit_id db))
  unfolding consume_email_verification_token
  consume-Pays token_hash now token audit_id db =
      consume_selected-Pays now audit_id (token_hash token) db _
        (select_proof-IsSelected (token_hash token) db.users db.email_verification_tokens)

  pub revoke-pending :
      (now : ℕ) (id : String) (db : Db)
      → pending (revoke_email_verification_token now id db).1 ≤ pending db
  unfolding revoke_email_verification_token
  revoke-pending now id db =
      count-update_le (can_spend h) (λ t. t.id == id && is_pending t) (revoke_proof now)
        (revoke_proof-flag h now) db.email_verification_tokens

  -- An issue adds at most its own proof.
  abbrev Adds : String → Db → Db → Type 0
  Adds x db db' = pending db' ≤ pending db + flag (x == h)

  issued-Adds :
      {A : Type 0} (a : A) (x : String) (db : Db) (r : Result (List OneTimeToken) AccountError)
      → ((ts : List OneTimeToken) → r ≡ ok ts → count (can_spend h) ts ≤ pending db + flag (x == h))
      → Adds x db
          (issued_of db (r >>= λ tokens. ok (a, record db { email_verification_tokens = tokens })))
  issued-Adds a x db (err e) le = ground arith
  issued-Adds a x db (ok ts) le = le ts refl

  issue_to-Adds :
      (token_hash : String → String) (now : ℕ) (lifetime : ℤ) (id token : String) (db : Db)
      (account : Option User)
      → Adds
          (token_hash token)
          db
          (issued_of db (issue_to token_hash now lifetime id token db account))
  unfolding issue_to
  issue_to-Adds token_hash now lifetime id token db none = ground arith
  issue_to-Adds token_hash now lifetime id token db (some u) =
      elim (Bool-cases (not u.active || u.email_verified)) [
        | inl refused ↦ rw refused (ground arith)
        | inr fine ↦ rw fine (
            issued-Adds _ (token_hash token) db _ (λ ts e. omega (
              arith,
              pending-insert_proof h
                  (new_proof id u.id u.email (token_hash token) (now + at_least_one lifetime))
                  db.users
                  (update_where (is_pending_of u.id) (revoke_proof now)
                    db.email_verification_tokens)
                  ts e,
              count-update_le (can_spend h) (is_pending_of u.id) (revoke_proof now)
                  (revoke_proof-flag h now) db.email_verification_tokens,
            )))
      ]

  pub issue-adds :
      (token_hash : String → String) (now : ℕ) (user_id : String) (lifetime : ℤ) (id token : String)
      (db : Db)
      → pending (
          issued_of db (issue_email_verification_token token_hash now user_id lifetime id token db))
        ≤ pending db + flag (token_hash token == h)
  unfolding issue_email_verification_token
  issue-adds token_hash now user_id lifetime id token db =
      issue_to-Adds token_hash now lifetime id token db (find (λ u. u.id == user_id) db.users)
