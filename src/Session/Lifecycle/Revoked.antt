-- ===== src/Session/Lifecycle/Revoked.antt =====
-- A session row once revoked stays revoked, and no transaction rotates a token of it.
use keylo.Base.{
  update_where, ℕ, String, Bool, false, ◌||◌, Option, none, some, List, [], ◌∷◌, ◌++◌, ◌≡◌, refl,
  sym, ap, ◌∙◌, arith, ◌==◌, eq_iff, not, ltb, find, is_some, if◌then◌else◌, Bool-cases, inl, inr,
}
use keylo.Base.Results.{Result, ok, err, ◌>>=◌, bind-eq-ok}
use keylo.Session.Tables.{
  RefreshSession, RefreshToken, Db, revoke, insert_session, insert_token, same_text, DbError,
}
use keylo.Session.Lifecycle.{
  ConsumeRefreshSessionResult, consumed, CreateRefreshSessionParams, Replacement, select_by_hash,
  spend, summary, point_at, new_session, context_allows, rotate, rotate_row, rotate_locked,
  consume_candidate, consume_and_rotate_refresh_session, create_refresh_session,
}
use keylo.Session.Lifecycle.Rotation.{select_by_hash-eq-some}

-- The `revoked_at` of the session with this id, if there is one.
abbrev pub revoked_at_of : String → List RefreshSession → Option ℕ
revoked_at_of id [] = none
revoked_at_of id (s ∷ ss) = if s.id == id then s.revoked_at else revoked_at_of id ss

pub revoked_at_of-update_where :
    (id : String) (at : ℕ) (test : RefreshSession → Bool) (change : RefreshSession → RefreshSession)
    (ss : List RefreshSession)
    → ((s : RefreshSession) → (change s).id ≡ s.id)
    → ((s : RefreshSession) → s.revoked_at ≡ some at → (change s).revoked_at ≡ some at)
    → revoked_at_of id ss ≡ some at
    → revoked_at_of id (update_where test change ss) ≡ some at
revoked_at_of-update_where id at test change [] same keeps h = h
revoked_at_of-update_where id at test change (s ∷ ss) same keeps h =
    ground (arith, same s, keeps s, revoked_at_of-update_where id at test change ss same keeps)

pub revoked_at_of-revoke :
    (id : String) (at : ℕ) (test : RefreshSession → Bool) (now : ℕ) (reason : Option String)
    (ss : List RefreshSession)
    → revoked_at_of id ss ≡ some at
    → revoked_at_of id (update_where test (revoke now reason) ss) ≡ some at
revoked_at_of-revoke id at test now reason ss =
    revoked_at_of-update_where id at test (revoke now reason) ss (λ s. refl) (λ s h. ground arith)

revoked_at_of-append :
    (id : String) (at : ℕ) (s : RefreshSession) (ss : List RefreshSession)
    → revoked_at_of id ss ≡ some at
    → revoked_at_of id (ss ++ s ∷ []) ≡ some at
revoked_at_of-append id at s [] h = cc
revoked_at_of-append id at s (t ∷ ss) h = ground (arith, revoked_at_of-append id at s ss)

pub find-revoked_at_of :
    (id : String) (ss : List RefreshSession) (s : RefreshSession)
    → find (λ t. t.id == id) ss ≡ some s
    → (s.id ≡ id) × (revoked_at_of id ss ≡ s.revoked_at)
find-revoked_at_of id [] s h = cc
find-revoked_at_of id (t ∷ ss) s h = ground (arith, find-revoked_at_of id ss s, eq_iff t.id id)

unrevoked_other :
    (id x : String) (at : ℕ) (ss : List RefreshSession) (s : RefreshSession)
    → revoked_at_of id ss ≡ some at
    → find (λ t. t.id == x) ss ≡ some s
    → is_some s.revoked_at ≡ false
    → (s.id == id) ≡ false
unrevoked_other id x at ss s revoked found open_ = elim (Bool-cases (s.id == id)) [
  | inl same ↦
      let (own, here) = find-revoked_at_of x ss s found in
      let moved = ap (λ k. revoked_at_of k ss) (sym own ∙ (eq_iff s.id id).0 same) in
      ground (arith, moved, here)
  | inr other ↦ other
]

sessions-insert_token :
    (t : RefreshToken) (db db' : Db)
    → insert_token t db ≡ ok db'
    → db'.refresh_sessions ≡ db.refresh_sessions
unfolding insert_token
sessions-insert_token t db db' e = ground arith

module _ (id : String) (at : ℕ) where
  abbrev pub IsRevoked : Db → Type 0
  IsRevoked db = revoked_at_of id db.refresh_sessions ≡ some at

  -- The session stays revoked, and is not the one that was rotated.
  abbrev pub Spares : Result (ConsumeRefreshSessionResult × Db) DbError → Type 0
  Spares (ok (consumed c, db')) = ((c.session_id == id) ≡ false) × IsRevoked db'
  Spares (ok (_, db')) = IsRevoked db'
  Spares (err e) = Unit

  module _ (token_hash : String → String) where
    inserted-Spares :
        (now : ℕ) (token : String) (new : Replacement) (s : RefreshSession) (t : RefreshToken)
        (db : Db) (r : Result Db DbError)
        → IsRevoked db
        → (s.id == id) ≡ false
        → insert_token t (spend now (token_hash token) db) ≡ r
        → Spares (r >>= λ db'. ok (consumed (summary s), point_at now new s.id db'))
    inserted-Spares now token new s t db (err e) revoked other inserted = tt
    inserted-Spares now token new s t db (ok db') revoked other inserted = (
      other,
      rw (sessions-insert_token t (spend now (token_hash token) db) db' inserted) (
          revoked_at_of-update_where id at (λ u. u.id == s.id)
            (λ u. record u {
              current_refresh_token_id = new.refresh_token_id;
              current_access_jti = new.access_jti;
              rotated_at = some now;
            })
            db.refresh_sessions (λ u. refl) (λ u h. h) revoked),
    )

    rotate_row-Spares :
        (now : ℕ) (token : String) (new : Replacement) (db : Db)
        (row : Option (RefreshToken × RefreshSession))
        → IsRevoked db
        → select_by_hash db (token_hash token) ≡ row
        → Spares (rotate_row token_hash now token new db row)
    unfolding rotate_row rotate
    rotate_row-Spares now token new db none revoked e = revoked
    rotate_row-Spares now token new db (some (t, s)) revoked e =
        elim (Bool-cases (not (ltb now t.expires_at) || not (ltb now s.expires_at))) [
          | inl expired ↦ rw expired revoked
          | inr live ↦
              elim (Bool-cases
                (is_some t.consumed_at || is_some t.revoked_at || is_some s.revoked_at)) [
                  | inl used ↦
                      rw (live, used)
                        (revoked_at_of-revoke id at (λ u. u.id == s.id) now
                          (some "refresh_token_replay") db.refresh_sessions revoked)
                  | inr unused ↦
                      rw (live, unused)
                        (inserted-Spares now token new s _ db _ revoked
                          (unrevoked_other id t.session_id at db.refresh_sessions s revoked
                            (select_by_hash-eq-some db (token_hash token) e).1 (ground arith))
                          refl)
                ]
        ]

    pub rotate_locked-Spares :
        (now : ℕ) (token : String) (new : Replacement) (db : Db)
        → IsRevoked db
        → Spares (rotate_locked token_hash now token new db)
    unfolding rotate_locked
    rotate_locked-Spares now token new db revoked =
        rotate_row-Spares now token new db _ revoked refl

    consume_candidate-Spares :
        (now : ℕ) (token : String) (expected : Option String) (new : Replacement) (db : Db)
        (row : Option (RefreshToken × RefreshSession))
        → IsRevoked db
        → Spares (consume_candidate token_hash now token expected new db row)
    unfolding consume_candidate
    consume_candidate-Spares now token expected new db none revoked = revoked
    consume_candidate-Spares now token expected new db (some (t, s)) revoked =
        elim (Bool-cases (not (same_text s.organization_id expected))) [
          | inl other ↦ rw other revoked
          | inr same ↦
              elim (Bool-cases (not (context_allows db s.organization_id s.principal_id))) [
                | inl inactive ↦
                    rw (same, inactive)
                      (revoked_at_of-revoke id at (λ u. u.id == t.session_id) now
                        (some "organization_context_inactive") db.refresh_sessions revoked)
                | inr active ↦ rw (same, active) (rotate_locked-Spares now token new db revoked)
              ]
        ]

    pub consume-Spares :
        (now : ℕ) (token : String) (expected : Option String) (new : Replacement) (db : Db)
        → IsRevoked db
        → Spares (consume_and_rotate_refresh_session token_hash now token expected new db)
    unfolding consume_and_rotate_refresh_session
    consume-Spares now token expected new db = consume_candidate-Spares now token expected new db _

    inserted_session :
        (s : RefreshSession) (db db' : Db)
        → insert_session s db ≡ ok db'
        → IsRevoked db
        → IsRevoked db'
    unfolding insert_session
    inserted_session s db db' e revoked =
        ground (arith, revoked_at_of-append id at s db.refresh_sessions)

    created-IsRevoked :
        (s : RefreshSession) (t : RefreshToken) (db db' : Db)
        → (insert_session s db >>= insert_token t) ≡ ok db'
        → IsRevoked db
        → IsRevoked db'
    created-IsRevoked s t db db' e revoked =
        let (db₁, first, second) = bind-eq-ok (insert_session s db) (insert_token t) e in
        rw (sessions-insert_token t db₁ db' second) (inserted_session s db db₁ first revoked)

    pub create-IsRevoked :
        (now : ℕ) (p : CreateRefreshSessionParams) (db db' : Db)
        → create_refresh_session token_hash now p db ≡ ok db'
        → IsRevoked db
        → IsRevoked db'
    unfolding create_refresh_session
    create-IsRevoked now p db db' e revoked =
        elim (Bool-cases (context_allows db p.organization_id p.principal_id)) [
          | inl allowed ↦ created-IsRevoked (new_session now p) _ db db' (rw allowed at e) revoked
          | inr refused ↦ ground arith
        ]
