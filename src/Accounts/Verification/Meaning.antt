-- ===== src/Accounts/Verification/Meaning.antt =====
-- What a verification that was accepted has checked, and what it leaves.
use mathlib.Core.Path.{subst}
use keylo.Base.{
  ℕ, ◌<◌, String, Bool, true, false, ◌&&◌, Option, none, some, List, [], ◌∷◌, ◌≡◌, refl, arith,
  ◌==◌, eq_iff, any, find, update_where, if◌then◌else◌, Bool-cases, inl, inr,
}
use keylo.Base.Results.{Result, ok, err, ◌>>=◌}
use keylo.Accounts.Tables.{
  User, OneTimeToken, AuditLog, Db, AccountError, is_pending, spend_proof, insert_audit,
  select_proof,
}
use keylo.Accounts.Proofs.{IsSelected, select_proof-IsSelected}
use keylo.Accounts.Verification.{
  ConsumeEmailVerificationTokenResult, verified, invalid, is_refused, spend_row, verify_email,
  verified_audit, mark_verified, consume_selected, consume_email_verification_token,
}

-- A proof that may be spent: pending, alive, and of an active account whose address did not change.
pub record IsUsable (now : ℕ) (t : OneTimeToken) (u : User) : Type 0 where
  pub not_consumed : t.consumed_at ≡ none
  pub not_revoked : t.revoked_at ≡ none
  pub alive : now < t.expires_at
  pub active : u.active ≡ true
  pub same_email : u.email ≡ t.email_snapshot

is_refused-IsUsable :
    (now : ℕ) (t : OneTimeToken) (u : User) → is_refused now t u ≡ false → IsUsable now t u
is_refused-IsUsable now t u fine = record {
  not_consumed = ground (arith, fine);
  not_revoked = ground (arith, fine);
  alive = ground (arith, fine);
  active = ground (arith, fine);
  same_email = ground (arith, fine, eq_iff u.email t.email_snapshot);
}

-- The account that the statement finds by its identifier has a verified address.
abbrev pub IsVerified : String → List User → Type 0
IsVerified user_id users =
    (u : User) × (find (λ a. a.id == user_id) users ≡ some u) × (u.email_verified ≡ true)

update-IsVerified :
    (now : ℕ) (user_id : String) (users : List User) (u : User)
    → find (λ a. a.id == user_id) users ≡ some u
    → IsVerified user_id (update_where (λ a. a.id == user_id) (verify_email now) users)
update-IsVerified now user_id [] u found = cc
update-IsVerified now user_id (a ∷ users) u found = elim (Bool-cases (a.id == user_id)) [
  | inl here ↦ (verify_email now a, ground (arith, here), refl)
  | inr other ↦
      let (v, found', is) = update-IsVerified now user_id users u (ground (arith, other, found)) in
      (v, ground (arith, other, found'), is)
]

abbrev pub IsSpent : String → List OneTimeToken → Type 0
IsSpent id ts = any (λ t. t.id == id && is_pending t) ts ≡ false

spend-IsSpent :
    (now : ℕ) (id : String) (ts : List OneTimeToken)
    → IsSpent id (update_where (λ r. r.id == id) (spend_proof now) ts)
spend-IsSpent now id [] = refl
spend-IsSpent now id (t ∷ ts) = ground (arith, spend-IsSpent now id ts)

-- What an outcome of a consumption says of the row that was selected.
abbrev pub IsSound :
    ℕ
    → Db
    → Option (OneTimeToken × User)
    → Result (ConsumeEmailVerificationTokenResult × Db) AccountError
    → Type 0
IsSound now db row (ok (verified user_id, db')) =
    (t : OneTimeToken) × (u : User) × (row ≡ some (t, u))
    × (user_id ≡ t.user_id)
    × IsUsable now t u
    × IsVerified user_id db'.users
    × IsSpent t.id db'.email_verification_tokens
IsSound now db row (ok (invalid, db')) =
    db' ≡ record db { email_verification_tokens = db'.email_verification_tokens }
IsSound now db row (err e) = Unit

audited-IsSound :
    (now : ℕ) (x : String) (t : OneTimeToken) (u : User) (db : Db)
    (logs : Result (List AuditLog) AccountError)
    → IsSelected x db.users db.email_verification_tokens (some (t, u))
    → IsUsable now t u
    → IsSound now db (some (t, u)) (
        logs
        >>= (λ l. ok (record (spend_row now t.id db) {
          users = update_where (λ r. r.id == t.user_id) (verify_email now) db.users;
          audit_logs = l;
        }))
        >>= λ db'. ok (verified t.user_id, db'))
audited-IsSound now x t u db (err e) i usable = tt
audited-IsSound now x t u db (ok l) (same, account, there) usable = (
  t,
  u,
  refl,
  refl,
  usable,
  update-IsVerified now t.user_id db.users u account,
  spend-IsSpent now t.id db.email_verification_tokens,
)

marked-IsSound :
    (now : ℕ) (audit_id x : String) (t : OneTimeToken) (u : User) (db : Db) (already : Bool)
    → IsSelected x db.users db.email_verification_tokens (some (t, u))
    → IsUsable now t u
    → u.email_verified ≡ already
    → IsSound now db (some (t, u)) (
        (if already
          then ok (spend_row now t.id db)
          else (insert_audit (verified_audit audit_id t.user_id) db.audit_logs >>= (λ l.
              ok (record (spend_row now t.id db) {
                users = update_where (λ r. r.id == t.user_id) (verify_email now) db.users;
                audit_logs = l;
              }))))
        >>= λ db'. ok (verified t.user_id, db'))
marked-IsSound now audit_id x t u db true (same, account, there) usable is = (
  t,
  u,
  refl,
  refl,
  usable,
  (u, account, is),
  spend-IsSpent now t.id db.email_verification_tokens,
)
marked-IsSound now audit_id x t u db false i usable is = audited-IsSound now x t u db _ i usable

consume_selected-IsSound :
    (now : ℕ) (audit_id x : String) (db : Db) (row : Option (OneTimeToken × User))
    → IsSelected x db.users db.email_verification_tokens row
    → IsSound now db row (consume_selected now audit_id db row)
unfolding consume_selected mark_verified
consume_selected-IsSound now audit_id x db none i = refl
consume_selected-IsSound now audit_id x db (some (t, u)) i =
    elim (Bool-cases (is_refused now t u)) [
      | inl refused ↦ rw refused refl
      | inr fine ↦
          let usable = is_refused-IsUsable now t u fine in
          rw fine (marked-IsSound now audit_id x t u db u.email_verified i usable refl)
    ]

-- A verification that is accepted spent a proof with the digest of the token that was usable at the
-- time, and leaves the account with a verified address and no pending proof under that identifier.
pub verified-IsVerified :
    (token_hash : String → String) (now : ℕ) (token audit_id : String) (db db' : Db)
    (user_id : String)
    → consume_email_verification_token token_hash now token audit_id db ≡ ok (verified user_id, db')
    → (t : OneTimeToken) × (u : User) × (select_proof
          (token_hash token)
          db.users
          db.email_verification_tokens
        ≡ some (t, u))
      × (user_id ≡ t.user_id)
      × IsUsable now t u
      × IsVerified user_id db'.users
      × IsSpent t.id db'.email_verification_tokens
unfolding consume_email_verification_token
verified-IsVerified token_hash now token audit_id db db' user_id done =
    let x = token_hash token in
    let row = select_proof x db.users db.email_verification_tokens in
    subst (IsSound now db row) done (
      consume_selected-IsSound now audit_id x db row
        (select_proof-IsSelected x db.users db.email_verification_tokens))
