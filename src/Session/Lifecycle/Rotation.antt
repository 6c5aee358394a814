-- ===== src/Session/Lifecycle/Rotation.antt =====
-- What each transaction takes from the unspent tokens, and what it adds to them.
use keylo.Base.{
  update_where, ℕ, ◌+◌, ◌≤◌, String, Bool, ◌&&◌, Option, none, some, List, [], ◌∷◌, ◌≡◌, refl,
  arith, ◌==◌, eq_iff, find, count, count-append, is_some, if◌then◌else◌, Bool-cases, not, ltb,
  ◌||◌, inl, inr,
}
use keylo.Base.Results.{bind-eq-ok, Result, ok, err, ◌>>=◌}
use keylo.Session.Tables.{
  RefreshSession, RefreshToken, Db, is_none, insert_token, insert_session, coalesce, same_text,
  DbError,
}
use keylo.Session.Lifecycle.{
  ConsumeRefreshSessionResult, consumed, CreateRefreshSessionParams, Replacement, select_by_hash,
  joined, spend, new_session, summary, point_at, context_allows, rotate, rotate_row, rotate_locked,
  consume_candidate, consume_and_rotate_refresh_session, create_refresh_session,
}

-- The rows that hold the hash `h` and are not yet consumed.
abbrev pub unspent : String → List RefreshToken → ℕ
unspent h ts = count (λ t. t.token_hash == h && is_none t.consumed_at) ts

abbrev pub flag : Bool → ℕ
flag b = if b then 1 else 0

module _ (h x : String) (now : ℕ) where
  unspent-consume :
      (ts : List RefreshToken)
      → unspent h
          (update_where (λ t. t.token_hash == x) (λ t. record t { consumed_at = some now }) ts)
        ≡ (if x == h then 0 else unspent h ts)
  unspent-consume [] = ground arith
  unspent-consume (t ∷ ts) =
      ground (arith, unspent-consume ts, eq_iff x h, eq_iff t.token_hash h, eq_iff t.token_hash x)

  pub unspent-revoke :
      (ts : List RefreshToken)
      → unspent h (
          update_where
            (λ t. t.token_hash == x)
            (λ t. record t { revoked_at = coalesce t.revoked_at (some now) })
            ts)
        ≡ unspent h ts
  unspent-revoke [] = refl
  unspent-revoke (t ∷ ts) = ground (arith, unspent-revoke ts)

find-unspent :
    (x : String) (ts : List RefreshToken) (t : RefreshToken)
    → find (λ u. u.token_hash == x) ts ≡ some t
    → t.consumed_at ≡ none
    → 1 ≤ unspent x ts
find-unspent x [] t found new = cc
find-unspent x (u ∷ ts) t found new = ground (arith, find-unspent x ts t)

pub unspent-insert_token :
    (h : String) (t : RefreshToken) (db db' : Db)
    → insert_token t db ≡ ok db'
    → unspent h db'.refresh_session_tokens
      ≤ unspent h db.refresh_session_tokens + flag (t.token_hash == h)
unfolding insert_token
unspent-insert_token h t db db' e = ground (
  arith,
  count-append (λ u. u.token_hash == h && is_none u.consumed_at) db.refresh_session_tokens (t ∷ []),
)

joined-eq-some :
    (db : Db) (o : Option RefreshToken) {t : RefreshToken} {s : RefreshSession}
    → joined db o ≡ some (t, s)
    → (o ≡ some t) × (find (λ u. u.id == t.session_id) db.refresh_sessions ≡ some s)
unfolding joined
joined-eq-some db none e = cc
joined-eq-some db (some u) e = ground arith

pub select_by_hash-eq-some :
    (db : Db) (x : String) {t : RefreshToken} {s : RefreshSession}
    → select_by_hash db x ≡ some (t, s)
    → (find (λ u. u.token_hash == x) db.refresh_session_tokens ≡ some t)
      × (find (λ u. u.id == t.session_id) db.refresh_sessions ≡ some s)
unfolding select_by_hash
select_by_hash-eq-some db x e = joined-eq-some db _ e

module _ (token_hash : String → String) (h : String) where
  -- A rotation takes one unspent row of the hash of its token, and adds one of its replacement's.
  abbrev pub Pays :
      String → Replacement → Db → Result (ConsumeRefreshSessionResult × Db) DbError → Type 0
  Pays token new db (ok (consumed c, db')) =
      flag (token_hash token == h) + unspent h db'.refresh_session_tokens
      ≤ unspent h db.refresh_session_tokens + flag (token_hash new.refresh_token == h)
  Pays token new db (ok (_, db')) =
      unspent h db'.refresh_session_tokens ≤ unspent h db.refresh_session_tokens
  Pays token new db (err e) = Unit

  inserted-Pays :
      (now : ℕ) (token : String) (new : Replacement) (s : RefreshSession) (t : RefreshToken)
      (db : Db) (r : Result Db DbError)
      → t.token_hash ≡ token_hash new.refresh_token
      → 1 ≤ unspent (token_hash token) db.refresh_session_tokens
      → insert_token t (spend now (token_hash token) db) ≡ r
      → Pays token new db (r >>= λ db'. ok (consumed (summary s), point_at now new s.id db'))
  inserted-Pays now token new s t db (err e) same one inserted = tt
  inserted-Pays now token new s t db (ok db') same one inserted = ground (
    arith,
    eq_iff (token_hash token) h,
    unspent-consume h (token_hash token) now db.refresh_session_tokens,
    unspent-insert_token h t (spend now (token_hash token) db) db' inserted,
  )

  rotate-Pays :
      (now : ℕ) (token : String) (new : Replacement) (s : RefreshSession) (db : Db)
      → 1 ≤ unspent (token_hash token) db.refresh_session_tokens
      → Pays token new db (rotate token_hash now token new s db)
  unfolding rotate
  rotate-Pays now token new s db one = inserted-Pays now token new s _ db _ refl one refl

  rotate_row-Pays :
      (now : ℕ) (token : String) (new : Replacement) (db : Db)
      (row : Option (RefreshToken × RefreshSession))
      → select_by_hash db (token_hash token) ≡ row
      → Pays token new db (rotate_row token_hash now token new db row)
  unfolding rotate_row
  rotate_row-Pays now token new db none e = omega arith
  rotate_row-Pays now token new db (some (t, s)) e =
      elim (Bool-cases (not (ltb now t.expires_at) || not (ltb now s.expires_at))) [
        | inl expired ↦ rw expired (omega arith)
        | inr live ↦
            elim (Bool-cases
              (is_some t.consumed_at || is_some t.revoked_at || is_some s.revoked_at)) [
                | inl used ↦ rw (live, used) (omega arith)
                | inr unused ↦
                    rw (live, unused)
                      (rotate-Pays now token new s db (
                        find-unspent (token_hash token) db.refresh_session_tokens t
                          (select_by_hash-eq-some db (token_hash token) e).0 (ground arith)))
              ]
      ]

  pub rotate_locked-Pays :
      (now : ℕ) (token : String) (new : Replacement) (db : Db)
      → Pays token new db (rotate_locked token_hash now token new db)
  unfolding rotate_locked
  rotate_locked-Pays now token new db = rotate_row-Pays now token new db _ refl

  consume_candidate-Pays :
      (now : ℕ) (token : String) (expected : Option String) (new : Replacement) (db : Db)
      (row : Option (RefreshToken × RefreshSession))
      → Pays token new db (consume_candidate token_hash now token expected new db row)
  unfolding consume_candidate
  consume_candidate-Pays now token expected new db none = omega arith
  consume_candidate-Pays now token expected new db (some (t, s)) =
      elim (Bool-cases (not (same_text s.organization_id expected))) [
        | inl other ↦ rw other (omega arith)
        | inr same ↦ elim (Bool-cases (not (context_allows db s.organization_id s.principal_id))) [
          | inl inactive ↦ rw (same, inactive) (omega arith)
          | inr active ↦ rw (same, active) (rotate_locked-Pays now token new db)
        ]
      ]

  pub consume-Pays :
      (now : ℕ) (token : String) (expected : Option String) (new : Replacement) (db : Db)
      → Pays token new db (consume_and_rotate_refresh_session token_hash now token expected new db)
  unfolding consume_and_rotate_refresh_session
  consume-Pays now token expected new db = consume_candidate-Pays now token expected new db _

  session_inserted :
      (s : RefreshSession) (db db' : Db)
      → insert_session s db ≡ ok db'
      → db'.refresh_session_tokens ≡ db.refresh_session_tokens
  unfolding insert_session
  session_inserted s db db' e = ground arith

  create_inserts :
      (t : RefreshToken) (s : RefreshSession) (db db' : Db)
      → (insert_session s db >>= insert_token t) ≡ ok db'
      → unspent h db'.refresh_session_tokens
        ≤ unspent h db.refresh_session_tokens + flag (t.token_hash == h)
  create_inserts t s db db' e =
      let (db₁, first, second) = bind-eq-ok (insert_session s db) (insert_token t) e in
      rw (← session_inserted s db db₁ first) (unspent-insert_token h t db₁ db' second)

  pub create-unspent :
      (now : ℕ) (p : CreateRefreshSessionParams) (db db' : Db)
      → create_refresh_session token_hash now p db ≡ ok db'
      → unspent h db'.refresh_session_tokens
        ≤ unspent h db.refresh_session_tokens + flag (token_hash p.refresh_token == h)
  unfolding create_refresh_session
  create-unspent now p db db' e =
      elim (Bool-cases (context_allows db p.organization_id p.principal_id)) [
        | inl allowed ↦ create_inserts _ (new_session now p) db db' (rw allowed at e)
        | inr refused ↦ ground arith
      ]
