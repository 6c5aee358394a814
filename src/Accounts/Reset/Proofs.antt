-- ===== src/Accounts/Reset/Proofs.antt =====
-- What each transaction on password resets takes from the pending proofs, and what it adds.
use keylo.Base.{
  ℕ, ◌+◌, ◌≤◌, String, Bool, true, not, ◌&&◌, Option, none, some, List, ◌≡◌, refl, arith, ◌==◌,
  count, update_where, Bool-cases, inl, inr,
}
use keylo.Base.Results.{Result, ok, err, ℤ, ◌>>=◌}
use keylo.Accounts.Tables.{
  User, OneTimeToken, AuditLog, Db, AccountError, is_pending, is_pending_of, revoke_proof,
  spend_proof, new_proof, at_least_one,
}
use keylo.Accounts.Proofs.{
  can_spend, flag, count-update_le, revoke_proof-flag, IsSelected, select_proof-IsSelected,
  pending-insert_proof, spend-selected, issued_of,
}
use keylo.Accounts.Reset.{
  reset, is_refused, reset_tables, accept_reset, consume_selected, eligible_user, issue_to,
  issue_password_reset_token, consume_password_reset_token, revoke_password_reset_token,
}
use keylo.Accounts.Reset.Runs.{reset_of}

module _ (h : String) where
  abbrev pub pending : Db → ℕ
  pending db = count (can_spend h) db.password_reset_tokens

  -- A consumption with the digest `x` takes one pending row of `x` when it accepts.
  abbrev pub Pays : String → Db → Bool × Db → Type 0
  Pays x db (accepted, db') = flag (accepted && x == h) + pending db' ≤ pending db

  accepted-Pays :
      (now : ℕ) (hash audit_id x : String) (t : OneTimeToken) (u : User) (db : Db)
      (logs : Result (List AuditLog) AccountError) (sessions browsers : ℕ)
      → IsSelected x db.users db.password_reset_tokens (some (t, u))
      → is_pending t ≡ true
      → Pays x db (
          reset_of db (
            logs >>= λ l. ok (
              reset t.user_id sessions browsers,
              record (reset_tables now hash t.id t.user_id db) { audit_logs = l },
            )))
  accepted-Pays now hash audit_id x t u db (err e) sessions browsers i fresh = ground arith
  accepted-Pays now hash audit_id x t u db (ok l) sessions browsers i fresh = omega (
    arith,
    spend-selected h x now db.users db.password_reset_tokens t u i fresh,
    count-update_le (can_spend h)
        (λ r. r.user_id == t.user_id && not (r.id == t.id) && is_pending r) (revoke_proof now)
        (revoke_proof-flag h now)
        (update_where (λ r. r.id == t.id) (spend_proof now) db.password_reset_tokens),
  )

  accept_reset-Pays :
      (now : ℕ) (hashed : Option String) (audit_id x : String) (t : OneTimeToken) (u : User)
      (db : Db)
      → IsSelected x db.users db.password_reset_tokens (some (t, u))
      → is_pending t ≡ true
      → Pays x db (reset_of db (accept_reset now hashed audit_id t db))
  unfolding accept_reset
  accept_reset-Pays now none audit_id x t u db i fresh = ground arith
  accept_reset-Pays now (some hash) audit_id x t u db i fresh =
      accepted-Pays now hash audit_id x t u db _ _ _ i fresh

  consume_selected-Pays :
      (now : ℕ) (hashed : Option String) (audit_id x : String) (db : Db)
      (row : Option (OneTimeToken × User))
      → IsSelected x db.users db.password_reset_tokens row
      → Pays x db (reset_of db (consume_selected now hashed audit_id db row))
  unfolding consume_selected
  consume_selected-Pays now hashed audit_id x db none i = ground arith
  consume_selected-Pays now hashed audit_id x db (some (t, u)) i =
      elim (Bool-cases (is_refused now t u)) [
        | inl refused ↦ rw refused (
            ground (
              arith,
              count-update_le (can_spend h) (λ r. r.id == t.id) (revoke_proof now)
                  (revoke_proof-flag h now) db.password_reset_tokens,
            ))
        | inr fine ↦
            rw fine (accept_reset-Pays now hashed audit_id x t u db i (ground (arith, fine)))
      ]

  pub consume-Pays :
      (token_hash : String → String) (now : ℕ) (token : String) (hashed : Option String)
      (audit_id : String) (db : Db)
      → Pays
          (token_hash token)
          db
          (reset_of db (consume_password_reset_token token_hash now token hashed audit_id db))
  unfolding consume_password_reset_token
  consume-Pays token_hash now token hashed audit_id db =
      consume_selected-Pays now hashed audit_id (token_hash token) db _
        (select_proof-IsSelected (token_hash token) db.users db.password_reset_tokens)

  pub revoke-pending :
      (now : ℕ) (id : String) (db : Db)
      → pending (revoke_password_reset_token now id db).1 ≤ pending db
  unfolding revoke_password_reset_token
  revoke-pending now id db =
      count-update_le (can_spend h) (λ t. t.id == id && is_pending t) (revoke_proof now)
        (revoke_proof-flag h now) db.password_reset_tokens

  -- An issue adds at most its own proof.
  abbrev Adds : String → Db → Db → Type 0
  Adds x db db' = pending db' ≤ pending db + flag (x == h)

  issued-Adds :
      {A : Type 0} (a : A) (x : String) (db : Db) (r : Result (List OneTimeToken) AccountError)
      → ((ts : List OneTimeToken) → r ≡ ok ts → count (can_spend h) ts ≤ pending db + flag (x == h))
      → Adds x db
          (issued_of db (r >>= λ tokens. ok (a, record db { password_reset_tokens = tokens })))
  issued-Adds a x db (err e) le = ground arith
  issued-Adds a x db (ok ts) le = le ts refl

  issue_to-Adds :
      (token_hash : String → String) (now : ℕ) (lifetime : ℤ) (id token : String) (db : Db)
      (account : Option User)
      → Adds
          (token_hash token)
          db
          (issued_of db (issue_to token_hash now lifetime id token db account))
  unfolding issue_to
  issue_to-Adds token_hash now lifetime id token db none = ground arith
  issue_to-Adds token_hash now lifetime id token db (some u) =
      issued-Adds _ (token_hash token) db _ (λ ts e. omega (
        arith,
        pending-insert_proof h
            (new_proof id u.id u.email (token_hash token) (now + at_least_one lifetime)) db.users
            (update_where (is_pending_of u.id) (revoke_proof now) db.password_reset_tokens) ts e,
        count-update_le (can_spend h) (is_pending_of u.id) (revoke_proof now)
            (revoke_proof-flag h now) db.password_reset_tokens,
      ))

  pub issue-adds :
      (token_hash : String → String) (now : ℕ) (identifier : String) (lifetime : ℤ)
      (id token : String) (db : Db)
      → pending
          (issued_of db (issue_password_reset_token token_hash now identifier lifetime id token db))
        ≤ pending db + flag (token_hash token == h)
  unfolding issue_password_reset_token
  issue-adds token_hash now identifier lifetime id token db =
      issue_to-Adds token_hash now lifetime id token db (eligible_user identifier db.users)
