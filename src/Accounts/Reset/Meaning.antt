-- ===== src/Accounts/Reset/Meaning.antt =====
-- What a reset that was accepted has checked, and what it leaves.
use mathlib.Core.Path.{subst}
use keylo.Base.{
  find, retain, ◌∙◌, find-update_where, retain-update_where, ℕ, ◌<◌, String, true, false, not, ◌&&◌,
  Option, none, some, List, [], ◌∷◌, ◌++◌, ◌≡◌, refl, arith, ◌==◌, eq_iff, any, count, is_some,
  update_where, Bool-cases, inl, inr,
}
use keylo.Base.Results.{Result, ok, err, ◌>>=◌}
use keylo.Session.Tables.{RefreshSession, Principal, is_none, coalesce}
use keylo.Session.Tables as Session
use keylo.Accounts.Tables.{
  User, OneTimeToken, BrowserSession, AuditLog, Db, AccountError, is_pending_of, insert_audit,
  select_proof,
}
use keylo.Accounts.Proofs.{IsSelected, select_proof-IsSelected}
use keylo.Accounts.Reset.{
  ConsumePasswordResetTokenResult, reset, invalid, is_refused, open_session, open_browser,
  close_browser, set_password, spend_siblings, reset_audit, reset_tables, accept_reset,
  consume_selected, consume_password_reset_token,
}

-- A proof that may be spent: pending, alive, and of an account whose address did not change.
pub record IsUsable (now : ℕ) (t : OneTimeToken) (u : User) : Type 0 where
  pub not_consumed : t.consumed_at ≡ none
  pub not_revoked : t.revoked_at ≡ none
  pub alive : now < t.expires_at
  pub active : u.active ≡ true
  pub email_verified : u.email_verified ≡ true
  pub local : is_some u.password_hash ≡ true
  pub same_email : u.email ≡ t.email_snapshot

-- Every way into the account but the new password is closed.
pub record IsClosed (user_id : String) (db : Db) : Type 0 where
  pub sessions : any (open_session db.principals user_id) db.refresh_sessions ≡ false
  pub browsers : any (open_browser user_id) db.oidc_browser_sessions ≡ false
  pub proofs : any (is_pending_of user_id) db.password_reset_tokens ≡ false
  pub password :
      any
        (λ u. u.id == user_id && not (u.password_change_required && is_some u.password_hash))
        db.users
      ≡ false

is_refused-IsUsable :
    (now : ℕ) (t : OneTimeToken) (u : User) → is_refused now t u ≡ false → IsUsable now t u
is_refused-IsUsable now t u fine = record {
  not_consumed = ground (arith, fine);
  not_revoked = ground (arith, fine);
  alive = ground (arith, fine);
  active = ground (arith, fine);
  email_verified = ground (arith, fine);
  local = ground (arith, fine);
  same_email = ground (arith, fine, eq_iff u.email t.email_snapshot);
}

module _ (now : ℕ) (user_id : String) where
  no-session :
      (principals : List Principal) (ss : List RefreshSession)
      → any (open_session principals user_id) (
          update_where
            (open_session principals user_id)
            (Session.revoke now (some "password_reset"))
            ss)
        ≡ false
  no-session principals [] = refl
  no-session principals (s ∷ ss) = ground (arith, no-session principals ss)

  no-browser :
      (ss : List BrowserSession)
      → any (open_browser user_id) (update_where (open_browser user_id) (close_browser now) ss)
        ≡ false
  no-browser [] = refl
  no-browser (s ∷ ss) = ground (arith, no-browser ss)

  no-proof :
      (id : String) (ts : List OneTimeToken)
      → any (is_pending_of user_id) (spend_siblings now id user_id ts) ≡ false
  no-proof id [] = refl
  no-proof id (t ∷ ts) = ground (arith, no-proof id ts)

  all-reset :
      (hash : String) (us : List User)
      → any
          (λ u. u.id == user_id && not (u.password_change_required && is_some u.password_hash))
          (update_where (λ u. u.id == user_id) (set_password now hash) us)
        ≡ false
  all-reset hash [] = refl
  all-reset hash (u ∷ us) = ground (arith, all-reset hash us)

  reset_tables-IsClosed :
      (hash id : String) (logs : List AuditLog) (db : Db)
      → IsClosed user_id (record (reset_tables now hash id user_id db) { audit_logs = logs })
  reset_tables-IsClosed hash id logs db = record {
    sessions = no-session db.principals db.refresh_sessions;
    browsers = no-browser db.oidc_browser_sessions;
    proofs = no-proof id db.password_reset_tokens;
    password = all-reset hash db.users;
  }

-- What an outcome of a consumption says of the row that was selected.
abbrev pub IsSound :
    ℕ
    → Db
    → Option (OneTimeToken × User)
    → Result (ConsumePasswordResetTokenResult × Db) AccountError
    → Type 0
IsSound now db row (ok (reset user_id sessions browsers, db')) =
    ((t : OneTimeToken) × (u : User) × (row ≡ some (t, u))
      × (user_id ≡ t.user_id)
      × IsUsable now t u)
    × IsClosed user_id db'
    × (sessions ≡ count (open_session db.principals user_id) db.refresh_sessions)
    × (browsers ≡ count (open_browser user_id) db.oidc_browser_sessions)
IsSound now db row (ok (invalid, db')) =
    db' ≡ record db { password_reset_tokens = db'.password_reset_tokens }
IsSound now db row (err e) = Unit

audited-IsSound :
    (now : ℕ) (hash : String) (t : OneTimeToken) (u : User) (db : Db)
    (logs : Result (List AuditLog) AccountError)
    → IsUsable now t u
    → IsSound now db (some (t, u)) (
        logs >>= λ l. ok (
          reset t.user_id
              (count (open_session db.principals t.user_id) db.refresh_sessions)
              (count (open_browser t.user_id) db.oidc_browser_sessions),
          record (reset_tables now hash t.id t.user_id db) { audit_logs = l },
        ))
audited-IsSound now hash t u db (err e) usable = tt
audited-IsSound now hash t u db (ok l) usable =
    ((t, u, refl, refl, usable), reset_tables-IsClosed now t.user_id hash t.id l db, refl, refl)

consume_selected-IsSound :
    (now : ℕ) (hashed : Option String) (audit_id : String) (db : Db)
    (row : Option (OneTimeToken × User))
    → IsSound now db row (consume_selected now hashed audit_id db row)
unfolding consume_selected accept_reset
consume_selected-IsSound now hashed audit_id db none = refl
consume_selected-IsSound now none audit_id db (some (t, u)) =
    elim (Bool-cases (is_refused now t u)) [ inl refused ↦ rw refused refl | inr fine ↦ rw fine tt ]
consume_selected-IsSound now (some hash) audit_id db (some (t, u)) =
    elim (Bool-cases (is_refused now t u)) [
      | inl refused ↦ rw refused refl
      | inr fine ↦ rw fine (audited-IsSound now hash t u db _ (is_refused-IsUsable now t u fine))
    ]

-- A reset that is accepted spent a proof with the digest of the token that was usable at the time,
-- and leaves the account with no refresh session, browser session or proof that is open and with a
-- password that has to be changed; the two numbers that it returns count the sessions it closed.
pub reset-IsClosed :
    (token_hash : String → String) (now : ℕ) (token : String) (hashed : Option String)
    (audit_id : String) (db db' : Db) (user_id : String) (sessions browsers : ℕ)
    → consume_password_reset_token token_hash now token hashed audit_id db
      ≡ ok (reset user_id sessions browsers, db')
    → ((t : OneTimeToken) × (u : User) × (select_proof
            (token_hash token)
            db.users
            db.password_reset_tokens
          ≡ some (t, u))
        × (user_id ≡ t.user_id)
        × IsUsable now t u)
      × IsClosed user_id db'
      × (sessions ≡ count (open_session db.principals user_id) db.refresh_sessions)
      × (browsers ≡ count (open_browser user_id) db.oidc_browser_sessions)
unfolding consume_password_reset_token
reset-IsClosed token_hash now token hashed audit_id db db' user_id sessions browsers done =
    let row = select_proof (token_hash token) db.users db.password_reset_tokens in
    subst (IsSound now db row) done (consume_selected-IsSound now hashed audit_id db row)

usable-fine :
    (now : ℕ) (t : OneTimeToken) (u : User) → IsUsable now t u → is_refused now t u ≡ false
usable-fine now t u usable = ground (
  arith,
  usable.not_consumed,
  usable.not_revoked,
  usable.alive,
  usable.active,
  usable.email_verified,
  usable.local,
  usable.same_email,
  eq_iff u.email t.email_snapshot,
)

find-named :
    (id : String) (us : List User) (u : User)
    → find (λ a. a.id == id) us ≡ some u
    → (u.id == id) ≡ true
find-named id [] u found = cc
find-named id (a ∷ us) u found = ground (arith, find-named id us u, found)

-- The account's row has the new password and nothing else that is new but the demand to change it
-- and the time; the other accounts are as they were, and every other way in is closed.
pub record IsReset (now : ℕ) (hash user_id : String) (u : User) (db db' : Db) : Type 0 where
  pub written :
      find (λ a. a.id == user_id) db'.users
      ≡ some (record u {
        password_hash = some hash;
        password_change_required = true;
        updated_at = now;
      })
  pub others :
      retain (λ a. not (a.id == user_id)) db'.users ≡ retain (λ a. not (a.id == user_id)) db.users
  pub closed : IsClosed user_id db'

reset_tables-IsReset :
    (now : ℕ) (hash id user_id : String) (logs : List AuditLog) (u : User) (db : Db)
    → find (λ a. a.id == user_id) db.users ≡ some u
    → IsReset now hash user_id u db
        (record (reset_tables now hash id user_id db) { audit_logs = logs })
reset_tables-IsReset now hash id user_id logs u db found =
    let named = find-named user_id db.users u found in
    record {
      written =
          find-update_where (λ a. a.id == user_id) (λ a. a.id == user_id) (set_password now hash)
            (λ a. refl) db.users u found
          ∙ rw named refl;
      others =
          retain-update_where (λ a. a.id == user_id) (set_password now hash) (λ a. refl) db.users;
      closed = reset_tables-IsClosed now user_id hash id logs db;
    }

-- A usable proof does reset the password, when the new one could be hashed and the identifier of the
-- audit record is new: the account's row then has the new hash and has to change it again, no other
-- account changes, and no refresh session, browser session or proof of the account stays open.
pub usable-resets :
    (token_hash : String → String) (now : ℕ) (token hash audit_id : String) (db : Db)
    (t : OneTimeToken) (u : User)
    → select_proof (token_hash token) db.users db.password_reset_tokens ≡ some (t, u)
    → IsUsable now t u
    → any (λ l. l.id == audit_id) db.audit_logs ≡ false
    → (sessions : ℕ) × (browsers : ℕ) × (db' : Db) × (consume_password_reset_token token_hash now
          token
          (some hash)
          audit_id
          db
        ≡ ok (reset t.user_id sessions browsers, db'))
      × IsReset now hash t.user_id u db db'
unfolding consume_password_reset_token consume_selected accept_reset insert_audit
usable-resets token_hash now token hash audit_id db t u found usable new =
    let sessions = count (open_session db.principals t.user_id) db.refresh_sessions in
    let browsers = count (open_browser t.user_id) db.oidc_browser_sessions in
    let logs = db.audit_logs ++ reset_audit audit_id t.user_id sessions browsers ∷ [] in
    let db' = record (reset_tables now hash t.id t.user_id db) { audit_logs = logs } in
    let (_, account, _) =
      subst (IsSelected (token_hash token) db.users db.password_reset_tokens) found
        (select_proof-IsSelected (token_hash token) db.users db.password_reset_tokens) in
    (
      sessions,
      browsers,
      db',
      rw (found, usable-fine now t u usable, new) refl,
      reset_tables-IsReset now hash t.id t.user_id logs u db account,
    )
