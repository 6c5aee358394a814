-- ===== src/Session/Lifecycle/Rotated.antt =====
-- The tables that a rotation of src/db/refresh_session.rs leaves.
use keylo.Base.{
  Bool, false, any, ◌++◌, eq_refl, find-update_where, any-update_where, find-append,
  find-append_last, update_where, ℕ, String, true, none, some, List, [], ◌∷◌, ◌≡◌, refl, ◌∙◌, arith,
  ◌==◌, find,
}
use keylo.Base.Results.{ok}
use keylo.Session.Tables.{RefreshSession, RefreshToken, Db, insert_token}
use keylo.Session.Lifecycle.{Replacement, new_token, spend, point_at}

find-passes :
    (x : String) (ts : List RefreshToken) (t : RefreshToken)
    → find (λ u. u.token_hash == x) ts ≡ some t
    → (t.token_hash == x) ≡ true
find-passes x [] t found = cc
find-passes x (u ∷ ts) t found = ground (arith, find-passes x ts t, found)

pub find-there :
    (x : String) (ss : List RefreshSession) (s : RefreshSession)
    → find (λ u. u.id == x) ss ≡ some s
    → any (λ u. u.id == x) ss ≡ true
find-there x [] s found = cc
find-there x (u ∷ ss) s found = ground (arith, find-there x ss s, found)

module _ (token_hash : String → String) (now : ℕ) (token : String) (new : Replacement)
    (db : Db) where
  -- What a rotation leaves: the presented token's row is consumed, the replacement has a row that is
  -- not, and the session points at it.
  pub record IsRotated (t : RefreshToken) (s : RefreshSession) (db' : Db) : Type 0 where
    pub spent :
        find (λ u. u.token_hash == token_hash token) db'.refresh_session_tokens
        ≡ some (record t { consumed_at = some now })
    pub replacement :
        find (λ u. u.token_id == new.refresh_token_id) db'.refresh_session_tokens
        ≡ some (record {
          token_id = new.refresh_token_id;
          session_id = s.id;
          token_hash = token_hash new.refresh_token;
          issued_at = now;
          consumed_at = none;
          expires_at = s.expires_at;
          revoked_at = none;
        })
    pub pointed :
        find (λ u. u.id == s.id) db'.refresh_sessions
        ≡ some (record s {
          current_refresh_token_id = new.refresh_token_id;
          current_access_jti = new.access_jti;
          rotated_at = some now;
        })

  -- The tables after the INSERT of the replacement.
  abbrev pub after_insert : RefreshSession → Db
  after_insert s =
      let spent = spend now (token_hash token) db in
      let h = token_hash new.refresh_token in
      record spent {
        refresh_session_tokens =
            spent.refresh_session_tokens
            ++ new_token now new.refresh_token_id s.id h s.expires_at ∷ [];
      }

  pub inserted-new :
      (s : RefreshSession)
      → any (λ u. u.token_id == new.refresh_token_id) db.refresh_session_tokens ≡ false
      → any (λ u. u.token_hash == token_hash new.refresh_token) db.refresh_session_tokens ≡ false
      → any (λ u. u.id == s.id) db.refresh_sessions ≡ true
      → insert_token
          (new_token now new.refresh_token_id s.id (token_hash new.refresh_token) s.expires_at)
          (spend now (token_hash token) db)
        ≡ ok (after_insert s)
  unfolding insert_token
  inserted-new s fresh_id fresh_hash there =
      let is_spent : RefreshToken → Bool = λ u. u.token_hash == token_hash token in
      let consume : RefreshToken → RefreshToken = λ u. record u { consumed_at = some now } in
      let ts = db.refresh_session_tokens in
      rw
        (
          any-update_where (λ u. u.token_id == new.refresh_token_id) is_spent consume (λ u. refl)
              ts,
          any-update_where (λ u. u.token_hash == token_hash new.refresh_token) is_spent consume
              (λ u. refl) ts,
          fresh_id,
          fresh_hash,
          there,
        )
        refl

  pub after_insert-IsRotated :
      (t : RefreshToken) (s : RefreshSession)
      → find (λ u. u.token_hash == token_hash token) db.refresh_session_tokens ≡ some t
      → find (λ u. u.id == s.id) db.refresh_sessions ≡ some s
      → any (λ u. u.token_id == new.refresh_token_id) db.refresh_session_tokens ≡ false
      → IsRotated t s (point_at now new s.id (after_insert s))
  after_insert-IsRotated t s found session fresh_id =
      let is_spent : RefreshToken → Bool = λ u. u.token_hash == token_hash token in
      let consume : RefreshToken → RefreshToken = λ u. record u { consumed_at = some now } in
      let ts = db.refresh_session_tokens in
      let h = token_hash new.refresh_token in
      let row = new_token now new.refresh_token_id s.id h s.expires_at in
      let spent = update_where is_spent consume ts in
      let passes = find-passes (token_hash token) ts t found in
      let point : RefreshSession → RefreshSession = λ u. record u {
        current_refresh_token_id = new.refresh_token_id;
        current_access_jti = new.access_jti;
        rotated_at = some now;
      } in
      record {
        spent =
            find-append is_spent spent (row ∷ []) (consume t)
              (find-update_where is_spent is_spent consume (λ u. refl) ts t found ∙ rw passes refl);
        replacement =
            find-append_last (λ u. u.token_id == new.refresh_token_id) spent row
              (any-update_where (λ u. u.token_id == new.refresh_token_id) is_spent consume
                  (λ u. refl) ts
                ∙ fresh_id)
              (eq_refl new.refresh_token_id);
        pointed =
            find-update_where (λ u. u.id == s.id) (λ u. u.id == s.id) point (λ u. refl)
              db.refresh_sessions s session
            ∙ rw (eq_refl s.id) refl;
      }
