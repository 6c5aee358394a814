-- ===== src/Session/Runs/OneTime.antt =====
-- A refresh token is good for one rotation, in any interleaving of the transactions.
use keylo.Base.{
  ℕ, ◌+◌, ◌≤◌, String, Bool, false, ◌&&◌, Option, List, [], ◌∷◌, ◌≡◌, refl, arith, ◌==◌, is_some,
}
use keylo.Base.Results.{Result, ok, err}
use keylo.Session.Tables.{Db, DbError}
use keylo.Session.Lifecycle.{
  ConsumeRefreshSessionResult, consumed, not_found, replayed, organization_scope_mismatch,
  organization_context_inactive, Replacement, create_refresh_session,
}
use keylo.Session.Lifecycle.Rotation.{
  unspent, flag, Pays, consume-Pays, rotate_locked-Pays, create-unspent, unspent-revoke,
}
use keylo.Session.Revocation.{
  revoke_refresh_session, revoke_refresh_session_by_token, revoke_principal_refresh_sessions,
  revoke_organization_refresh_sessions, revoke_client_refresh_sessions,
  revoke_principal_client_refresh_sessions,
}
use keylo.Session.Runs.{Op, create, consume, resume, revoke_token, rotation_of, created, perform}

module _ (token_hash : String → String) (h : String) where
  -- Whether the operation asks to rotate the token with the hash `h`, or issues one.
  abbrev pub rotates : Op → Bool
  rotates (consume now token expected new) = token_hash token == h
  rotates (resume now token new) = token_hash token == h
  rotates _ = false

  abbrev pub issues : Op → Bool
  issues (create now p) = token_hash p.refresh_token == h
  issues (consume now token expected new) = token_hash new.refresh_token == h
  issues (resume now token new) = token_hash new.refresh_token == h
  issues _ = false

  -- How many rotations of that token a run makes, and how often the run issues it.
  unfoldable pub rotations : List Op → Db → ℕ
  rotations [] db = 0
  rotations (op ∷ ops) db =
      let (c, db') = perform token_hash op db in flag (is_some c && rotates op) + rotations ops db'

  unfoldable pub issued : List Op → ℕ
  issued [] = 0
  issued (op ∷ ops) = flag (issues op) + issued ops

  rotation_of-Pays :
      (token : String) (new : Replacement) (db : Db)
      (r : Result (ConsumeRefreshSessionResult × Db) DbError)
      → Pays token_hash h token new db r
      → let (c, db') = rotation_of db r in
        flag (is_some c && token_hash token == h) + unspent h db'.refresh_session_tokens
        ≤ unspent h db.refresh_session_tokens + flag (token_hash new.refresh_token == h)
  unfolding rotation_of
  rotation_of-Pays token new db (ok (consumed c, db')) pays = ground arith
  rotation_of-Pays token new db (ok (not_found, db')) pays = ground arith
  rotation_of-Pays token new db (ok (replayed s, db')) pays = ground arith
  rotation_of-Pays token new db (ok (organization_scope_mismatch, db')) pays = ground arith
  rotation_of-Pays token new db (ok (organization_context_inactive, db')) pays = ground arith
  rotation_of-Pays token new db (err e) pays = ground arith

  created-pays :
      (token : String) (db : Db) (r : Result Db DbError)
      → ((db' : Db)
          → r ≡ ok db'
          → unspent h db'.refresh_session_tokens
            ≤ unspent h db.refresh_session_tokens + flag (token_hash token == h))
      → unspent h (created db r).refresh_session_tokens
        ≤ unspent h db.refresh_session_tokens + flag (token_hash token == h)
  unfolding created
  created-pays token db (ok db') pays = pays db' refl
  created-pays token db (err e) pays = ground arith

  revoke_token-pays :
      (now : ℕ) (token : String) (reason : Option String) (db : Db)
      → unspent h
          (revoke_refresh_session_by_token token_hash now token reason db).1.refresh_session_tokens
        ≡ unspent h db.refresh_session_tokens
  unfolding revoke_refresh_session_by_token
  revoke_token-pays now token reason db =
      ground (arith, unspent-revoke h (token_hash token) now db.refresh_session_tokens)

  perform-pays :
      (op : Op) (db : Db)
      → let (c, db') = perform token_hash op db in
        flag (is_some c && rotates op) + unspent h db'.refresh_session_tokens
        ≤ unspent h db.refresh_session_tokens + flag (issues op)
  unfolding perform revoke_refresh_session revoke_principal_refresh_sessions
      revoke_organization_refresh_sessions revoke_client_refresh_sessions
      revoke_principal_client_refresh_sessions
  perform-pays (create now p) db = omega (
    arith,
    created-pays p.refresh_token db (create_refresh_session token_hash now p db)
        (create-unspent token_hash h now p db),
  )
  perform-pays (consume now token expected new) db =
      rotation_of-Pays token new db _ (consume-Pays token_hash h now token expected new db)
  perform-pays (resume now token new) db =
      rotation_of-Pays token new db _ (rotate_locked-Pays token_hash h now token new db)
  perform-pays (revoke_token now token reason) db =
      omega (arith, revoke_token-pays now token reason db)
  perform-pays _ db = omega arith

  -- In any run of the transactions, from any tables, a refresh token is rotated at most as often as
  -- the run issued it, plus the unspent rows with its hash at the start.
  pub rotations-le-issued :
      (ops : List Op) (db : Db)
      → rotations ops db ≤ issued ops + unspent h db.refresh_session_tokens
  unfolding rotations issued
  rotations-le-issued [] db = omega arith
  rotations-le-issued (op ∷ ops) db =
      omega (arith, perform-pays op db, rotations-le-issued ops (perform token_hash op db).1)
