-- ===== src/Accounts/Examples.antt =====
-- A person who asks for two proofs, uses the second one twice, and has a session meanwhile.
use keylo.Base.Text.{◌⧺◌}
use keylo.Base.Results.{pos, ok}
use keylo.Base.{
  ℕ, ◌+◌, ◌≤◌, String, true, false, none, some, List, [], ◌∷◌, ◌≡◌, refl, arith, count,
}
use keylo.Session.Tables.{RefreshSession}
use keylo.Accounts.Tables.{
  User, OneTimeToken, Db, password_reset, email_token, is_pending_of, select_proof, insert_proof,
  insert_audit,
}
use keylo.Accounts.Proofs.{can_spend}
use keylo.Accounts.Reset.{
  reset, open_session, open_browser, eligible_user, issue_to, issue_password_reset_token,
  consume_selected, accept_reset, consume_password_reset_token,
}
use keylo.Accounts.Reset.Runs.{Op, issue, consume, perform, run}
use keylo.Accounts.Reset.OneTime.{issues, accepted, resets-le-issued}
use keylo.Accounts.Reset.Single.{run-single}
use keylo.Accounts.Reset.Meaning.{IsUsable, IsClosed, reset-IsClosed, IsReset, usable-resets}
use keylo.Accounts.Verification as Verification
use keylo.Accounts.Verification.{verified, mark_verified, consume_email_verification_token}
use keylo.Accounts.Verification.Meaning as Meaning
use keylo.Accounts.Verification.Meaning.{IsVerified, IsSpent, verified-IsVerified}

abbrev digest : String → String
digest token = "h" ⧺ token

abbrev ann : User
ann = record {
  id = "u1";
  username = "ann";
  email = "ann@x";
  email_verified = true;
  active = true;
  password_hash = some "old";
  password_change_required = false;
  updated_at = 1;
}

abbrev session : RefreshSession
session = record {
  id = "s1";
  principal_id = "p1";
  client_id = "web";
  current_refresh_token_id = "t1";
  current_access_jti = "j1";
  organization_id = none;
  login_ip = none;
  user_agent = none;
  issued_at = 1;
  rotated_at = none;
  expires_at = 900;
  revoked_at = none;
  revoke_reason = none;
}

abbrev proof : String → String → OneTimeToken
proof id hash = record {
  id = id;
  user_id = "u1";
  email_snapshot = "ann@x";
  token_hash = hash;
  expires_at = 100;
  consumed_at = none;
  revoked_at = none;
}

abbrev start : Db
start = record {
  users = ann ∷ [];
  principals =
      record {
        id = "p1";
        principal_type = "user";
        subject = "user:u1";
        ref_id = "u1";
        active = true;
      }
      ∷ [];
  password_reset_tokens = [];
  email_verification_tokens = proof "e1" "hmail" ∷ [];
  refresh_sessions = session ∷ [];
  oidc_browser_sessions =
      record { id = "b1"; session_hash = "hb"; user_id = "u1"; expires_at = 900; revoked_at = none }
      ∷ [];
  audit_logs = [];
}

abbrev ops : List Op
ops =
    issue 10 "ann" (pos 50) "r1" "one"
    ∷ issue 20 "ann@x" (pos 50) "r2" "two"
    ∷ consume 30 "one" (some "new") "a1"
    ∷ consume 30 "two" (some "new") "a2"
    ∷ consume 31 "two" (some "other") "a3"
    ∷ []

accepted-first : accepted digest "hone" ops start ≡ 0
unfolding accepted perform issue_password_reset_token issue_to insert_proof eligible_user
    consume_password_reset_token consume_selected accept_reset insert_audit
accepted-first = refl

accepted-second : accepted digest "htwo" ops start ≡ 1
unfolding accepted perform issue_password_reset_token issue_to insert_proof eligible_user
    consume_password_reset_token consume_selected accept_reset insert_audit
accepted-second = refl

resets-le-issued_example :
    accepted digest "htwo" ops start
    ≤ count (issues digest "htwo") ops + count (can_spend "htwo") start.password_reset_tokens
resets-le-issued_example = resets-le-issued digest "htwo" ops start

run-single_example : count (is_pending_of "u1") (run digest ops start).password_reset_tokens ≤ 1
run-single_example = run-single "u1" digest ops start (omega arith)

abbrev asked : Db
asked = record start { password_reset_tokens = proof "r2" "htwo" ∷ proof "r3" "hthree" ∷ [] }

abbrev done : Db
done = record start {
  users =
      record ann { password_hash = some "new"; password_change_required = true; updated_at = 30 }
      ∷ [];
  password_reset_tokens =
      record (proof "r2" "htwo") { consumed_at = some 30 }
      ∷ record (proof "r3" "hthree") { revoked_at = some 30 }
      ∷ [];
  refresh_sessions =
      record session { revoked_at = some 30; revoke_reason = some "password_reset" } ∷ [];
  oidc_browser_sessions =
      record {
        id = "b1";
        session_hash = "hb";
        user_id = "u1";
        expires_at = 900;
        revoked_at = some 30;
      }
      ∷ [];
  audit_logs =
      record {
        id = "a2";
        event_type = "user.password_reset";
        actor = none;
        detail = password_reset "u1" 1 1;
      }
      ∷ [];
}

consume-asked :
    consume_password_reset_token digest 30 "two" (some "new") "a2" asked ≡ ok (reset "u1" 1 1, done)
unfolding consume_password_reset_token consume_selected accept_reset insert_audit
consume-asked = refl

reset-IsClosed_example :
    ((t : OneTimeToken) × (u : User) × (select_proof "htwo" asked.users asked.password_reset_tokens
        ≡ some (t, u))
      × ("u1" ≡ t.user_id)
      × IsUsable 30 t u)
    × IsClosed "u1" done
    × (1 ≡ count (open_session asked.principals "u1") asked.refresh_sessions)
    × (1 ≡ count (open_browser "u1") asked.oidc_browser_sessions)
reset-IsClosed_example =
    reset-IsClosed digest 30 "two" (some "new") "a2" asked done "u1" 1 1 consume-asked

usable-resets_example :
    (sessions : ℕ) × (browsers : ℕ) × (db' : Db) × (consume_password_reset_token digest 30 "two"
        (some "new")
        "a2"
        asked
      ≡ ok (reset "u1" sessions browsers, db'))
    × IsReset 30 "new" "u1" ann asked db'
usable-resets_example =
    usable-resets digest 30 "two" "new" "a2" asked (proof "r2" "htwo") ann refl
      (record {
        not_consumed = refl;
        not_revoked = refl;
        alive = omega arith;
        active = refl;
        email_verified = refl;
        local = refl;
        same_email = refl;
      })
      refl

abbrev unverified : Db
unverified = record start { users = record ann { email_verified = false } ∷ [] }

abbrev verified_db : Db
verified_db = record start {
  users = record ann { updated_at = 40 } ∷ [];
  email_verification_tokens = record (proof "e1" "hmail") { consumed_at = some 40 } ∷ [];
  audit_logs =
      record {
        id = "a9";
        event_type = "user.email_verified";
        actor = none;
        detail = email_token "u1";
      }
      ∷ [];
}

consume-unverified :
    consume_email_verification_token digest 40 "mail" "a9" unverified
    ≡ ok (verified "u1", verified_db)
unfolding consume_email_verification_token Verification.consume_selected mark_verified insert_audit
consume-unverified = refl

verified-IsVerified_example :
    (t : OneTimeToken) × (u : User) × (select_proof "hmail" unverified.users
        unverified.email_verification_tokens
      ≡ some (t, u))
    × ("u1" ≡ t.user_id)
    × Meaning.IsUsable 40 t u
    × IsVerified "u1" verified_db.users
    × IsSpent t.id verified_db.email_verification_tokens
verified-IsVerified_example =
    verified-IsVerified digest 40 "mail" "a9" unverified verified_db "u1" consume-unverified
