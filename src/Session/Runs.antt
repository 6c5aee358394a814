-- ===== src/Session/Runs.antt =====
-- Any sequence of the session transactions, with changes by the rest of the program to the tables
-- that they only read.
pub mod OneTime
pub mod Finality
use keylo.Base.{ℕ, String, Option, none, some, List, [], ◌∷◌}
use keylo.Base.Results.{Result, ok, err}
use keylo.Session.Tables.{Organization, Principal, User, Membership, Db, DbError}
use keylo.Session.Lifecycle.{
  ConsumedRefreshSession, ConsumeRefreshSessionResult, consumed, CreateRefreshSessionParams,
  Replacement, create_refresh_session, rotate_locked, consume_and_rotate_refresh_session,
}
use keylo.Session.Revocation.{
  revoke_refresh_session, revoke_refresh_session_by_token, revoke_principal_refresh_sessions,
  revoke_organization_refresh_sessions, revoke_client_refresh_sessions,
  revoke_principal_client_refresh_sessions,
}

pub data Op : Type 0 where
  create : ℕ → CreateRefreshSessionParams → Op
  consume : ℕ → String → Option String → Replacement → Op
  -- The second half of a consumption, whose first half read an earlier state of the tables.
  resume : ℕ → String → Replacement → Op
  revoke_one : ℕ → String → Option String → Op
  revoke_token : ℕ → String → Option String → Op
  revoke_principal : ℕ → String → Option String → Op
  revoke_organization : ℕ → String → Option String → Op
  revoke_client : ℕ → String → Option String → Op
  revoke_pair : ℕ → String → String → Option String → Op
  -- Other writers, at any values.
  others : List Organization → List Principal → List User → List Membership → Op

-- The rotation that a consumption made, if it made one, and the tables after it.
rotation_of :
    Db → Result (ConsumeRefreshSessionResult × Db) DbError → Option ConsumedRefreshSession × Db
rotation_of db (ok (consumed c, db')) = (some c, db')
rotation_of db (ok (_, db')) = (none, db')
rotation_of db (err e) = (none, db)

created : Db → Result Db DbError → Db
created db (ok db') = db'
created db (err e) = db

module _ (token_hash : String → String) where
  unfoldable pub perform : Op → Db → Option ConsumedRefreshSession × Db
  unfolding rotation_of created
  perform (create now p) db = (none, created db (create_refresh_session token_hash now p db))
  perform (consume now token expected new) db =
      rotation_of db (consume_and_rotate_refresh_session token_hash now token expected new db)
  perform (resume now token new) db = rotation_of db (rotate_locked token_hash now token new db)
  perform (revoke_one now id reason) db = (none, (revoke_refresh_session now id reason db).1)
  perform (revoke_token now token reason) db =
      (none, (revoke_refresh_session_by_token token_hash now token reason db).1)
  perform (revoke_principal now id reason) db =
      (none, (revoke_principal_refresh_sessions now id reason db).1)
  perform (revoke_organization now id reason) db =
      (none, (revoke_organization_refresh_sessions now id reason db).1)
  perform (revoke_client now id reason) db =
      (none, (revoke_client_refresh_sessions now id reason db).1)
  perform (revoke_pair now id client reason) db =
      (none, (revoke_principal_client_refresh_sessions now id client reason db).1)
  perform (others organizations principals users memberships) db = (
    none,
    record db {
      organizations = organizations;
      principals = principals;
      users = users;
      organization_memberships = memberships;
    },
  )
