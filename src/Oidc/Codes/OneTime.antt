-- ===== src/Oidc/Codes/OneTime.antt =====
-- A code is exchanged once, in any sequence of the statements.
use keylo.Base.{
  ℕ, ◌+◌, ◌≤◌, String, Bool, true, false, ◌&&◌, Option, none, some, List, [], ◌∷◌, ◌≡◌, arith, ◌==◌,
  eq_iff, sym, refl, any, ◌||◌, find, count, count-append, update_where, if◌then◌else◌, Bool-cases,
  inl, inr,
}
use keylo.Base.Results.{Result, ok, err}
use keylo.Session.Tables.{is_none}
use keylo.Organizations.Tables.{Failure}
use keylo.Oidc.Codes.{
  CodeRow, OidcAuthorizationCode, Db, has_live_context, new_row, grant_of, consume_row,
  is_exchangeable, is_exchangeable_by, create_authorization_code, consume_authorization_code,
  consume_authorization_code_for_client,
}

pub data Op : Type 0 where
  create : String → String → OidcAuthorizationCode → Op
  consume : ℕ → String → Op
  consume_for_client : ℕ → String → String → Option String → Op
  -- Other writers: every table but the codes becomes that of the argument.
  others : Db → Op

abbrev pub tables_of : Db → Result Db Failure → Db
tables_of db (ok db') = db'
tables_of db (err e) = db

module _ (authorization_code_hash : String → String) where
  -- What an operation hands out, and the tables after it.
  unfoldable pub perform : Op → Db → Option OidcAuthorizationCode × Db
  perform (create id raw_code a) db =
      (none, tables_of db (create_authorization_code authorization_code_hash id raw_code a db))
  perform (consume now raw_code) db =
      consume_authorization_code authorization_code_hash now raw_code db
  perform (consume_for_client now raw_code client_id organization_id) db =
      consume_authorization_code_for_client authorization_code_hash now raw_code client_id
        organization_id db
  perform (others new) db =
      (none, record new { oidc_authorization_codes = db.oidc_authorization_codes })

  module _ (h : String) where
    -- An operation that presents a code with the digest `h`.
    abbrev pub presents : Op → Bool
    presents (consume now raw_code) = authorization_code_hash raw_code == h
    presents (consume_for_client now raw_code client_id organization_id) =
        authorization_code_hash raw_code == h
    presents _ = false

    abbrev pub creates : Op → Bool
    creates (create id raw_code a) = authorization_code_hash raw_code == h
    creates _ = false

    abbrev pub is_grant : Option OidcAuthorizationCode → Bool
    is_grant none = false
    is_grant (some a) = true

    -- How many times a run hands out a grant for a code with the digest `h`.
    unfoldable pub exchanges : List Op → Db → ℕ
    exchanges [] db = 0
    exchanges (op ∷ ops) db =
        (if presents op && is_grant (perform op db).0 then 1 else 0)
        + exchanges ops (perform op db).1

    -- An unconsumed row with the digest `h`.
    abbrev pub is_unused : CodeRow → Bool
    is_unused c = c.code_hash == h && is_none c.consumed_at

    consume_row-le :
        (now : ℕ) (test : CodeRow → Bool) (cs : List CodeRow)
        → count is_unused (update_where test (consume_row now) cs) ≤ count is_unused cs
    consume_row-le now test [] = omega arith
    consume_row-le now test (c ∷ cs) = ground (arith, consume_row-le now test cs)

    -- A row that passes the test is unused, so a grant costs one.
    consume_where-pays :
        (now : ℕ) (test : CodeRow → Bool) (cs : List CodeRow)
        → ((c : CodeRow) → test c ≡ true → is_unused c ≡ true)
        → (if is_grant (grant_of (find test cs)) then 1 else 0)
            + count is_unused (update_where test (consume_row now) cs)
          ≤ count is_unused cs
    consume_where-pays now test [] narrow = omega arith
    consume_where-pays now test (c ∷ cs) narrow = elim (Bool-cases (test c)) [
      | inl passes ↦ rw passes (ground (arith, narrow c passes, consume_row-le now test cs))
      | inr fails ↦ rw fails (omega (arith, consume_where-pays now test cs narrow))
    ]

    presented :
        (raw_code : String) (now : ℕ) (c : CodeRow)
        → (authorization_code_hash raw_code == h) ≡ true
        → is_exchangeable now (authorization_code_hash raw_code) c ≡ true
        → is_unused c ≡ true
    presented raw_code now c same fine =
        rw (sym ((eq_iff (authorization_code_hash raw_code) h).0 same)) (ground (arith, fine))

    create-adds :
        (id raw_code : String) (a : OidcAuthorizationCode) (db : Db)
        → count is_unused
            (tables_of db (
              create_authorization_code authorization_code_hash id raw_code a
                db)).oidc_authorization_codes
          ≤ count is_unused db.oidc_authorization_codes
            + (if authorization_code_hash raw_code == h then 1 else 0)
    unfolding create_authorization_code
    create-adds id raw_code a db =
        let row = new_row id (authorization_code_hash raw_code) a in
        let more = count-append is_unused db.oidc_authorization_codes (row ∷ []) in
        elim (Bool-cases (has_live_context db a.client_id a.organization_id a.user_id)) [
          | inr dead ↦ rw dead (ground arith)
          | inl live ↦
              rw live
                (elim (Bool-cases (
                  any (λ r. r.id == id || r.code_hash == authorization_code_hash raw_code)
                    db.oidc_authorization_codes)) [
                      | inl there ↦ rw there (ground arith)
                      | inr new ↦ rw new (ground (arith, more))
                    ])
        ]

    consume_if-pays :
        (now : ℕ) (shown : Bool) (test : CodeRow → Bool) (cs : List CodeRow)
        → (shown ≡ true → (c : CodeRow) → test c ≡ true → is_unused c ≡ true)
        → (if shown && is_grant (grant_of (find test cs)) then 1 else 0)
            + count is_unused (update_where test (consume_row now) cs)
          ≤ count is_unused cs
    consume_if-pays now true test cs narrow = consume_where-pays now test cs (narrow refl)
    consume_if-pays now false test cs narrow = omega (arith, consume_row-le now test cs)

    perform-pays :
        (op : Op) (db : Db)
        → (if presents op && is_grant (perform op db).0 then 1 else 0)
            + count is_unused (perform op db).1.oidc_authorization_codes
          ≤ count is_unused db.oidc_authorization_codes + (if creates op then 1 else 0)
    unfolding perform consume_authorization_code consume_authorization_code_for_client
    perform-pays (create id raw_code a) db = omega (arith, create-adds id raw_code a db)
    perform-pays (consume now raw_code) db = omega (
      arith,
      consume_if-pays now (authorization_code_hash raw_code == h)
          (is_exchangeable now (authorization_code_hash raw_code)) db.oidc_authorization_codes
          (λ same c fine. presented raw_code now c same fine),
    )
    perform-pays (consume_for_client now raw_code client_id organization_id) db = omega (
      arith,
      consume_if-pays now (authorization_code_hash raw_code == h)
          (is_exchangeable_by db now (authorization_code_hash raw_code) client_id organization_id)
          db.oidc_authorization_codes
          (λ same c fine. presented raw_code now c same (ground (arith, fine))),
    )
    perform-pays (others new) db = omega arith

    -- In any run of the statements, from any tables, a code is exchanged for a grant at most as often
    -- as the run creates it, plus the unconsumed rows with its digest at the start.
    pub exchanges-le-created :
        (ops : List Op) (db : Db)
        → exchanges ops db ≤ count creates ops + count is_unused db.oidc_authorization_codes
    unfolding exchanges
    exchanges-le-created [] db = omega arith
    exchanges-le-created (op ∷ ops) db =
        omega (arith, perform-pays op db, exchanges-le-created ops (perform op db).1)
