-- ===== src/Session/Examples.antt =====
-- A person with one session on a concrete database, and runs over it.
use keylo.Base.{◌+◌, ◌≤◌, String, true, none, some, List, [], ◌∷◌, ◌≡◌, refl, arith}
use keylo.Base.Results.{ok}
use keylo.Session.Tables.{
  RefreshSession, RefreshToken, Principal, Db, coalesce, insert_session, insert_token,
}
use keylo.Session.Context.{lock_active_organization_session_context}
use keylo.Session.Context.Meaning.{IsActiveContext}
use keylo.Session.Lifecycle.Tenancy.{Opens, opens-IsActiveContext}
use keylo.Session.Lifecycle.{
  consumed, replayed, CreateRefreshSessionParams, Replacement, summary, new_session, new_token,
  select_by_hash, context_allows, rotate_locked, revoke_session_row, create_refresh_session,
  consume_and_rotate_refresh_session,
}
use keylo.Session.Lifecycle.Rotation.{unspent}
use keylo.Session.Lifecycle.Rotated.{IsRotated}
use keylo.Session.Lifecycle.Revoked.{revoked_at_of}
use keylo.Session.Lifecycle.Replay.{
  IsRotatable, consume-rotates, IsInScope, IsRotation, replay-revokes, consume-IsRotation,
}
use keylo.Session.Revocation.{
  revoke_principal_refresh_sessions, has_active_refresh_session_for_principal,
}
use keylo.Session.Runs.{Op, create, consume, revoke_principal, perform}
use keylo.Session.Runs.OneTime.{rotations, issued, rotations-le-issued}
use keylo.Session.Runs.Finality.{session_rotations, run, revocation_final, replay_ends_family}
use keylo.Session.Policy.{Desk, enforce_refresh_session_policy}
use keylo.Session.Policy.Single.{active_sessions, login-single}

-- The hash of a token, here the token itself.
abbrev plain : String → String
plain token = token

abbrev ann : Principal
ann = record {
  id = "p1";
  principal_type = "user";
  subject = "user:ann";
  ref_id = "u1";
  active = true;
}

abbrev base : Db
base = record {
  organizations = record { id = "o1"; status = "active"; kind = "customer" } ∷ [];
  principals = ann ∷ [];
  users = record { id = "u1"; active = true; user_class = some "external_customer" } ∷ [];
  organization_memberships =
      record { organization_id = "o1"; principal_id = "p1"; status = "active" } ∷ [];
  refresh_sessions = [];
  refresh_session_tokens = [];
}

abbrev session : RefreshSession
session = record {
  id = "s1";
  principal_id = "p1";
  client_id = "web";
  current_refresh_token_id = "t2";
  current_access_jti = "j2";
  organization_id = some "o1";
  login_ip = none;
  user_agent = none;
  issued_at = 10;
  rotated_at = some 20;
  expires_at = 100;
  revoked_at = none;
  revoke_reason = none;
}

-- The first token of the session, spent, and the second.
abbrev spent : RefreshToken
spent = record {
  token_id = "t1";
  session_id = "s1";
  token_hash = "one";
  issued_at = 10;
  consumed_at = some 20;
  expires_at = 100;
  revoked_at = none;
}

abbrev fresh : RefreshToken
fresh = record {
  token_id = "t2";
  session_id = "s1";
  token_hash = "two";
  issued_at = 20;
  consumed_at = none;
  expires_at = 100;
  revoked_at = none;
}

abbrev rotated : Db
rotated = record base {
  refresh_sessions = session ∷ [];
  refresh_session_tokens = spent ∷ fresh ∷ [];
}

abbrev third : Replacement
third = record { refresh_token_id = "t3"; refresh_token = "three"; access_jti = "j3" }

abbrev params : CreateRefreshSessionParams
params = record {
  session_id = "s9";
  principal_id = "p1";
  client_id = "web";
  organization_id = some "o1";
  refresh_token_id = "t9";
  refresh_token = "nine";
  access_jti = "j9";
  login_ip = none;
  user_agent = none;
  expires_at = 200;
}

spent-IsInScope : IsInScope plain 30 "one" (some "o1") third rotated spent session
unfolding select_by_hash context_allows lock_active_organization_session_context
spent-IsInScope = record { selected = refl; same_scope = refl; allowed = refl }

abbrev after_third : Db
after_third = record base {
  refresh_sessions =
      record session {
        current_refresh_token_id = "t3";
        current_access_jti = "j3";
        rotated_at = some 30;
      }
      ∷ [];
  refresh_session_tokens =
      spent
      ∷ record fresh { consumed_at = some 30 }
      ∷ record {
        token_id = "t3";
        session_id = "s1";
        token_hash = "three";
        issued_at = 30;
        consumed_at = none;
        expires_at = 100;
        revoked_at = none;
      }
      ∷ [];
}

consume-IsRotation_example : IsRotation plain 30 "two" (some "o1") third rotated (summary session)
unfolding consume_and_rotate_refresh_session select_by_hash lock_active_organization_session_context
    rotate_locked insert_token
consume-IsRotation_example =
    consume-IsRotation plain 30 "two" (some "o1") third rotated (summary session) after_third refl

opens-IsActiveContext_example : IsActiveContext rotated "o1" "p1"
unfolding consume_and_rotate_refresh_session select_by_hash lock_active_organization_session_context
    rotate_locked insert_token
opens-IsActiveContext_example =
    opens-IsActiveContext plain rotated "o1" "p1"
      (Opens.rotated 30 "two" (some "o1") third (summary session) _ refl)

fresh-IsInScope : IsInScope plain 30 "two" (some "o1") third rotated fresh session
unfolding select_by_hash context_allows lock_active_organization_session_context
fresh-IsInScope = record { selected = refl; same_scope = refl; allowed = refl }

fresh-IsRotatable : IsRotatable 30 fresh session
fresh-IsRotatable = record {
  token_live = omega arith;
  session_live = omega arith;
  unconsumed = refl;
  token_unrevoked = refl;
  session_unrevoked = refl;
}

abbrev with_third : Db
with_third = record after_third { refresh_sessions = session ∷ [] }

consume-rotates_example :
    (db' : Db) × (consume_and_rotate_refresh_session plain 30 "two" (some "o1") third rotated
      ≡ ok (consumed (summary session), db'))
    × IsRotated plain 30 "two" third rotated fresh session db'
consume-rotates_example =
    consume-rotates plain 30 "two" (some "o1") third rotated fresh session fresh-IsInScope
      fresh-IsRotatable refl refl

abbrev story : List Op
story =
    create 5 params ∷ consume 6 "nine" (some "o1") third ∷ consume 7 "nine" (some "o1") third ∷ []

rotations-le-issued_example :
    rotations plain "nine" story base
    ≤ issued plain "nine" story + unspent "nine" base.refresh_session_tokens
rotations-le-issued_example = rotations-le-issued plain "nine" story base

rotations-story : rotations plain "nine" story base ≡ 1
unfolding rotations perform consume_and_rotate_refresh_session select_by_hash create_refresh_session
    lock_active_organization_session_context insert_session insert_token rotate_locked
rotations-story = refl

abbrev ended : Db
ended = record rotated { refresh_sessions = record session { revoked_at = some 25 } ∷ [] }

revocation_final_example :
    (session_rotations plain "s1" (consume 30 "two" (some "o1") third ∷ []) ended ≡ 0)
    × (revoked_at_of "s1"
          (run plain (consume 30 "two" (some "o1") third ∷ []) ended).refresh_sessions
        ≡ some 25)
revocation_final_example =
    revocation_final plain "s1" 25 (consume 30 "two" (some "o1") third ∷ []) ended refl

one-replayed :
    let db' = revoke_session_row 30 "s1" "refresh_token_replay" rotated in
    (consume_and_rotate_refresh_session plain 30 "one" (some "o1") third rotated
      ≡ ok (replayed "s1", db'))
    × (revoked_at_of "s1" db'.refresh_sessions ≡ coalesce none (some 30))
one-replayed =
    replay-revokes plain 30 "one" (some "o1") third rotated spent session spent-IsInScope
      (omega arith) (omega arith) refl

replay_ends_family_example :
    session_rotations plain "s1"
      (consume 31 "two" (some "o1") third ∷ revoke_principal 32 "p1" none ∷ [])
      (revoke_session_row 30 "s1" "refresh_token_replay" rotated)
    ≡ 0
replay_ends_family_example =
    replay_ends_family plain 30 "one" (some "o1") third rotated
      (revoke_session_row 30 "s1" "refresh_token_replay" rotated) spent session
      (consume 31 "two" (some "o1") third ∷ revoke_principal 32 "p1" none ∷ []) spent-IsInScope
      (omega arith) (omega arith) refl one-replayed.0

abbrev desk : Desk
desk = record { db = rotated; audit_log = [] }

abbrev logged_in : Db
logged_in = record rotated {
  refresh_sessions =
      record session { revoked_at = some 31; revoke_reason = some "session_takeover" }
      ∷ new_session 32 params
      ∷ [];
  refresh_session_tokens = spent ∷ fresh ∷ new_token 32 "t9" "s9" "nine" 200 ∷ [];
}

login-single_example : active_sessions 40 "p1" logged_in ≤ 1
unfolding enforce_refresh_session_policy create_refresh_session
    has_active_refresh_session_for_principal lock_active_organization_session_context
    revoke_principal_refresh_sessions insert_session insert_token
login-single_example =
    login-single "single_user_session" true 30 31 ann true desk plain 32 40 params logged_in
      (omega arith) refl refl refl
