-- ===== src/Session/Lifecycle/Replay.antt =====
-- What a consumption does with a token that is not good for one: replays, unknown tokens, tokens of
-- another scope; and when it does rotate.
use mathlib.Core.Path.{subst}
use keylo.Base.{
  false, any, update_where, ℕ, ◌<◌, String, true, ◌||◌, Option, none, some, List, [], ◌∷◌, ◌≡◌,
  refl, sym, ◌∙◌, arith, ◌==◌, find, is_some,
}
use keylo.Base.Results.{ok, bind-eq-ok}
use keylo.Session.Tables.{
  RefreshSession, RefreshToken, Db, revoke, coalesce, insert_token, same_text,
}
use keylo.Session.Lifecycle.{
  ConsumedRefreshSession, consumed, replayed, Replacement, select_by_hash, summary, new_token,
  spend, point_at, context_allows, revoke_session_row, rotate, rotate_row, rotate_locked,
  consume_candidate, consume_and_rotate_refresh_session,
}
use keylo.Session.Lifecycle.Rotation.{select_by_hash-eq-some}
use keylo.Session.Lifecycle.Rotated.{
  IsRotated, after_insert, inserted-new, after_insert-IsRotated, find-there,
}
use keylo.Session.Lifecycle.Revoked.{revoked_at_of, find-revoked_at_of}

revoked_at_of-revoke_self :
    (now : ℕ) (reason : Option String) (ss : List RefreshSession) (s : RefreshSession)
    → find (λ u. u.id == s.id) ss ≡ some s
    → revoked_at_of s.id (update_where (λ u. u.id == s.id) (revoke now reason) ss)
      ≡ coalesce s.revoked_at (some now)
revoked_at_of-revoke_self now reason [] s found = cc
revoked_at_of-revoke_self now reason (u ∷ ss) s found =
    ground (arith, revoked_at_of-revoke_self now reason ss s)

found_self :
    (x : String) (ss : List RefreshSession) (s : RefreshSession)
    → find (λ u. u.id == x) ss ≡ some s
    → find (λ u. u.id == s.id) ss ≡ some s
found_self x ss s found =
    subst (λ k. find (λ u. u.id == k) ss ≡ some s) (sym (find-revoked_at_of x ss s found).0) found

-- What has to hold of a token's row and its session for a rotation.
pub record IsRotatable (now : ℕ) (t : RefreshToken) (s : RefreshSession) : Type 0 where
  pub token_live : now < t.expires_at
  pub session_live : now < s.expires_at
  pub unconsumed : t.consumed_at ≡ none
  pub token_unrevoked : t.revoked_at ≡ none
  pub session_unrevoked : s.revoked_at ≡ none

module _ (token_hash : String → String) (now : ℕ) (token : String) (expected : Option String)
    (new : Replacement) (db : Db) where
  -- The token's row and session, in the scope that the caller expects.
  pub record IsInScope (t : RefreshToken) (s : RefreshSession) : Type 0 where
    pub selected : select_by_hash db (token_hash token) ≡ some (t, s)
    pub same_scope : same_text s.organization_id expected ≡ true
    pub allowed : context_allows db s.organization_id s.principal_id ≡ true

  rotate_locked-selected :
      (t : RefreshToken) (s : RefreshSession)
      → select_by_hash db (token_hash token) ≡ some (t, s)
      → rotate_locked token_hash now token new db
        ≡ rotate_row token_hash now token new db (some (t, s))
  unfolding rotate_locked
  rotate_locked-selected t s selected = rw selected

  consume-IsInScope :
      (t : RefreshToken) (s : RefreshSession)
      → IsInScope t s
      → consume_and_rotate_refresh_session token_hash now token expected new db
        ≡ rotate_row token_hash now token new db (some (t, s))
  unfolding consume_and_rotate_refresh_session
  consume-IsInScope t s h =
      rw (h.selected, h.same_scope, h.allowed) (rotate_locked-selected t s h.selected)

  -- A live token that was consumed or revoked before is answered as a replay, and its session is
  -- revoked: at its first time of revocation if it had one, and now otherwise.
  pub replay-revokes :
      (t : RefreshToken) (s : RefreshSession)
      → IsInScope t s
      → now < t.expires_at
      → now < s.expires_at
      → (is_some t.consumed_at || is_some t.revoked_at) ≡ true
      → let db' = revoke_session_row now s.id "refresh_token_replay" db in
        (consume_and_rotate_refresh_session token_hash now token expected new db
          ≡ ok (replayed s.id, db'))
        × (revoked_at_of s.id db'.refresh_sessions ≡ coalesce s.revoked_at (some now))
  unfolding rotate_row
  replay-revokes t s h token_live session_live used = (
    consume-IsInScope t s h ∙ ground arith,
    revoked_at_of-revoke_self now (some "refresh_token_replay") db.refresh_sessions s (
        found_self t.session_id db.refresh_sessions s
          (select_by_hash-eq-some db (token_hash token) h.selected).1),
  )

  -- What a rotation has established: the token's row and session, in scope and rotatable.
  pub record IsRotation (c : ConsumedRefreshSession) : Type 0 where
    pub row : RefreshToken
    pub session : RefreshSession
    pub in_scope : IsInScope row session
    pub rotatable : IsRotatable now row session
    pub reported : c ≡ summary session

  rotate-consumed :
      (s : RefreshSession) (c : ConsumedRefreshSession) (db' : Db)
      → rotate token_hash now token new s db ≡ ok (consumed c, db')
      → c ≡ summary s
  unfolding rotate
  rotate-consumed s c db' e = let (db₁, _, same) = bind-eq-ok (insert_token _ _) _ e in ground arith

  rotate_row-consumed :
      (t : RefreshToken) (s : RefreshSession) (c : ConsumedRefreshSession) (db' : Db)
      → rotate_row token_hash now token new db (some (t, s)) ≡ ok (consumed c, db')
      → IsRotatable now t s × (c ≡ summary s)
  unfolding rotate_row
  rotate_row-consumed t s c db' e = (ground arith, rotate-consumed s c db' (ground arith))

  consume_candidate-consumed :
      (row : Option (RefreshToken × RefreshSession)) (c : ConsumedRefreshSession) (db' : Db)
      → select_by_hash db (token_hash token) ≡ row
      → consume_candidate token_hash now token expected new db row ≡ ok (consumed c, db')
      → IsRotation c
  unfolding consume_candidate
  consume_candidate-consumed none c db' selected e = cc
  consume_candidate-consumed (some (t, s)) c db' selected e =
      let row : rotate_row token_hash now token new db (some (t, s)) ≡ ok (consumed c, db') =
        sym (rotate_locked-selected t s selected) ∙ ground arith in
      let (rotatable, reported) = rotate_row-consumed t s c db' row in
      record {
        row = t;
        session = s;
        in_scope = record {
          selected = selected;
          same_scope = ground arith;
          allowed = ground arith;
        };
        rotatable = rotatable;
        reported = reported;
      }

  -- A rotation happens only for a known token in the scope that the caller expects, in an active
  -- organization context if it has one, with the token and the session unexpired and unrevoked and
  -- the token unconsumed; and it reports that session.
  pub consume-IsRotation :
      (c : ConsumedRefreshSession) (db' : Db)
      → consume_and_rotate_refresh_session token_hash now token expected new db
        ≡ ok (consumed c, db')
      → IsRotation c
  unfolding consume_and_rotate_refresh_session
  consume-IsRotation c db' = consume_candidate-consumed _ c db' refl

  rotate-inserted :
      (s : RefreshSession) (db' : Db)
      → insert_token
          (new_token now new.refresh_token_id s.id (token_hash new.refresh_token) s.expires_at)
          (spend now (token_hash token) db)
        ≡ ok db'
      → rotate token_hash now token new s db ≡ ok (consumed (summary s), point_at now new s.id db')
  unfolding rotate
  rotate-inserted s db' inserted = rw inserted refl

  rotate_row-IsRotatable :
      (t : RefreshToken) (s : RefreshSession)
      → IsRotatable now t s
      → rotate_row token_hash now token new db (some (t, s)) ≡ rotate token_hash now token new s db
  unfolding rotate_row
  rotate_row-IsRotatable t s r =
      ground
        (arith, r.token_live, r.session_live, r.unconsumed, r.token_unrevoked, r.session_unrevoked)

  -- A token whose row is in scope and rotatable is rotated whenever the replacement's identifier and
  -- digest are new: the answer reports its session, the presented token's row is consumed now, the
  -- replacement has a row for the same session that is not, with the session's expiry, and the session
  -- points at the replacement.
  pub consume-rotates :
      (t : RefreshToken) (s : RefreshSession)
      → IsInScope t s
      → IsRotatable now t s
      → any (λ u. u.token_id == new.refresh_token_id) db.refresh_session_tokens ≡ false
      → any (λ u. u.token_hash == token_hash new.refresh_token) db.refresh_session_tokens ≡ false
      → (db' : Db) × (consume_and_rotate_refresh_session token_hash now token expected new db
          ≡ ok (consumed (summary s), db'))
        × IsRotated token_hash now token new db t s db'
  consume-rotates t s h r fresh_id fresh_hash =
      let (found, joined_) = select_by_hash-eq-some db (token_hash token) h.selected in
      let session = found_self t.session_id db.refresh_sessions s joined_ in
      let there = find-there s.id db.refresh_sessions s session in
      (
        point_at now new s.id (after_insert token_hash now token new db s),
        consume-IsInScope t s h
            ∙ rotate_row-IsRotatable t s r
            ∙ rotate-inserted s (after_insert token_hash now token new db s)
                (inserted-new token_hash now token new db s fresh_id fresh_hash there),
        after_insert-IsRotated token_hash now token new db t s found session fresh_id,
      )
