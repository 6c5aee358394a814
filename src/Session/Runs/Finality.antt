-- ===== src/Session/Runs/Finality.antt =====
-- Revocation is final: from then on, no run of the transactions rotates a token of the session.
use mathlib.Core.Path.{subst}
use keylo.Base.{
  ◌<◌, ◌∙◌, ℕ, ◌+◌, String, Bool, true, false, ◌||◌, Option, none, some, List, [], ◌∷◌, ◌≡◌, refl,
  arith, ◌==◌, is_some, find, Option-cases, inl, inr,
}
use keylo.Base.Results.{Result, ok, err}
use keylo.Session.Tables.{RefreshToken, RefreshSession, Db, coalesce, DbError}
use keylo.Session.Lifecycle.{
  ConsumedRefreshSession, ConsumeRefreshSessionResult, consumed, not_found, replayed,
  organization_scope_mismatch, organization_context_inactive, Replacement,
  consume_and_rotate_refresh_session, revoke_session_row,
}
use keylo.Session.Lifecycle.Replay.{IsInScope, replay-revokes}
use keylo.Session.Lifecycle.Rotation.{flag}
use keylo.Session.Lifecycle.Revoked.{
  revoked_at_of, revoked_at_of-revoke, IsRevoked, Spares, consume-Spares, rotate_locked-Spares,
  create-IsRevoked,
}
use keylo.Session.Revocation.{
  revoke_refresh_session, revoke_refresh_session_by_token, revoke_principal_refresh_sessions,
  revoke_organization_refresh_sessions, revoke_client_refresh_sessions,
  revoke_principal_client_refresh_sessions,
}
use keylo.Session.Runs.{
  Op, create, consume, resume, revoke_one, revoke_token, revoke_principal, revoke_organization,
  revoke_client, revoke_pair, others, rotation_of, created, perform,
}

abbrev rotated : String → Option ConsumedRefreshSession → Bool
rotated id none = false
rotated id (some c) = c.session_id == id

module _ (token_hash : String → String) (id : String) where
  -- How many tokens of the session `id` a run rotates, and the tables after the run.
  unfoldable pub session_rotations : List Op → Db → ℕ
  session_rotations [] db = 0
  session_rotations (op ∷ ops) db =
      let (c, db') = perform token_hash op db in flag (rotated id c) + session_rotations ops db'

unfoldable pub run : (String → String) → List Op → Db → Db
run token_hash [] db = db
run token_hash (op ∷ ops) db = run token_hash ops (perform token_hash op db).1

module _ (token_hash : String → String) (id : String) (at : ℕ) where
  rotation_of-Spares :
      (db : Db) (r : Result (ConsumeRefreshSessionResult × Db) DbError)
      → IsRevoked id at db
      → Spares id at r
      → let (c, db') = rotation_of db r in (rotated id c ≡ false) × IsRevoked id at db'
  unfolding rotation_of
  rotation_of-Spares db (ok (consumed c, db')) revoked h = h
  rotation_of-Spares db (ok (not_found, db')) revoked h = (refl, h)
  rotation_of-Spares db (ok (replayed s, db')) revoked h = (refl, h)
  rotation_of-Spares db (ok (organization_scope_mismatch, db')) revoked h = (refl, h)
  rotation_of-Spares db (ok (organization_context_inactive, db')) revoked h = (refl, h)
  rotation_of-Spares db (err e) revoked h = (refl, revoked)

  created-spares :
      (db : Db) (r : Result Db DbError)
      → IsRevoked id at db
      → ((db' : Db) → r ≡ ok db' → IsRevoked id at db')
      → IsRevoked id at (created db r)
  unfolding created
  created-spares db (ok db') revoked h = h db' refl
  created-spares db (err e) revoked h = revoked

  revoke_token-spares :
      (now : ℕ) (token : String) (reason : Option String) (db : Db)
      → IsRevoked id at db
      → IsRevoked id at (revoke_refresh_session_by_token token_hash now token reason db).1
  unfolding revoke_refresh_session_by_token
  revoke_token-spares now token reason db revoked =
      elim (Option-cases (find (λ t. t.token_hash == token_hash token) db.refresh_session_tokens)) [
        | inl missing ↦ rw (missing, revoke_refresh_session_by_token) revoked
        | inr (t, found) ↦
            rw (found, revoke_refresh_session_by_token)
              (revoked_at_of-revoke id at (λ s. s.id == t.session_id) now reason db.refresh_sessions
                revoked)
      ]

  perform-spares :
      (op : Op) (db : Db)
      → IsRevoked id at db
      → let (c, db') = perform token_hash op db in (rotated id c ≡ false) × IsRevoked id at db'
  unfolding perform revoke_refresh_session revoke_principal_refresh_sessions
      revoke_organization_refresh_sessions revoke_client_refresh_sessions
      revoke_principal_client_refresh_sessions
  perform-spares (create now p) db revoked = (
    refl,
    created-spares db _ revoked (λ db' e. create-IsRevoked id at token_hash now p db db' e revoked),
  )
  perform-spares (consume now token expected new) db revoked =
      rotation_of-Spares db _ revoked
        (consume-Spares id at token_hash now token expected new db revoked)
  perform-spares (resume now token new) db revoked =
      rotation_of-Spares db _ revoked
        (rotate_locked-Spares id at token_hash now token new db revoked)
  perform-spares (revoke_token now token reason) db revoked =
      (refl, revoke_token-spares now token reason db revoked)
  perform-spares (others organizations principals users memberships) db revoked = (refl, revoked)
  perform-spares (revoke_one now i reason) db revoked =
      (refl, revoked_at_of-revoke id at _ now reason db.refresh_sessions revoked)
  perform-spares (revoke_principal now i reason) db revoked =
      (refl, revoked_at_of-revoke id at _ now reason db.refresh_sessions revoked)
  perform-spares (revoke_organization now i reason) db revoked =
      (refl, revoked_at_of-revoke id at _ now reason db.refresh_sessions revoked)
  perform-spares (revoke_client now i reason) db revoked =
      (refl, revoked_at_of-revoke id at _ now reason db.refresh_sessions revoked)
  perform-spares (revoke_pair now i client reason) db revoked =
      (refl, revoked_at_of-revoke id at _ now reason db.refresh_sessions revoked)

-- Once a session is revoked, every run of the transactions leaves it revoked with its first time of
-- revocation, and rotates none of its tokens.
pub revocation_final :
    (token_hash : String → String) (id : String) (at : ℕ) (ops : List Op) (db : Db)
    → revoked_at_of id db.refresh_sessions ≡ some at
    → (session_rotations token_hash id ops db ≡ 0)
      × (revoked_at_of id (run token_hash ops db).refresh_sessions ≡ some at)
unfolding session_rotations run
revocation_final token_hash id at [] db revoked = (refl, revoked)
revocation_final token_hash id at (op ∷ ops) db revoked =
    let (spared, revoked') = perform-spares token_hash id at op db revoked in
    let (none_later, final) =
      revocation_final token_hash id at ops (perform token_hash op db).1 revoked' in
    (ground (arith, spared, none_later), final)

coalesce-some : (o : Option ℕ) (now : ℕ) → (at : ℕ) × (coalesce o (some now) ≡ some at)
coalesce-some none now = (now, refl)
coalesce-some (some at) now = (at, refl)

-- After the answer to a replayed token, no run of the transactions rotates any token of its session:
-- the replay has ended the whole family.
pub replay_ends_family :
    (token_hash : String → String) (now : ℕ) (token : String) (expected : Option String)
    (new : Replacement) (db db' : Db) (t : RefreshToken) (s : RefreshSession) (ops : List Op)
    → IsInScope token_hash now token expected new db t s
    → now < t.expires_at
    → now < s.expires_at
    → (is_some t.consumed_at || is_some t.revoked_at) ≡ true
    → consume_and_rotate_refresh_session token_hash now token expected new db
      ≡ ok (replayed s.id, db')
    → session_rotations token_hash s.id ops db' ≡ 0
replay_ends_family token_hash now token expected new db db' t s ops scope token_live session_live
      used e =
    let (answer, revoked) =
      replay-revokes token_hash now token expected new db t s scope token_live session_live used in
    let db'' = revoke_session_row now s.id "refresh_token_replay" db in
    let same : db'' ≡ db' = ground (arith, answer, e) in
    let (at, held) = coalesce-some s.revoked_at now in
    (revocation_final token_hash s.id at ops db'
      (subst (λ d. revoked_at_of s.id d.refresh_sessions ≡ some at) same (revoked ∙ held))).0
