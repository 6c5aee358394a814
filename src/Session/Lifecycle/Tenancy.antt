-- ===== src/Session/Lifecycle/Tenancy.antt =====
-- Which organizations' sessions a transaction may leave usable.
use mathlib.Core.Path.{subst}
use keylo.Base.{ℕ, String, true, Option, none, some, ◌≡◌, sym, Bool-cases, inl, inr, arith}
use keylo.Base.Results.{ok}
use keylo.Session.Tables.{Db}
use keylo.Session.Context.Meaning.{IsActiveContext, lock_active-IsActiveContext}
use keylo.Session.Lifecycle.{
  ConsumedRefreshSession, consumed, CreateRefreshSessionParams, Replacement, context_allows,
  create_refresh_session, consume_and_rotate_refresh_session,
}
use keylo.Session.Lifecycle.Replay.{consume-IsRotation}

module _ (token_hash : String → String) (db : Db) where
  -- A transaction on these tables that leaves a session with a fresh token, in this scope and for
  -- this principal: a session is created, or its token is rotated.
  pub data Opens : Option String → String → Type 0 where
    created :
        (now : ℕ) (p : CreateRefreshSessionParams) (db' : Db)
        → create_refresh_session token_hash now p db ≡ ok db'
        → Opens p.organization_id p.principal_id
    rotated :
        (now : ℕ) (token : String) (expected : Option String) (new : Replacement)
        (c : ConsumedRefreshSession) (db' : Db)
        → consume_and_rotate_refresh_session token_hash now token expected new db
          ≡ ok (consumed c, db')
        → Opens c.organization_id c.principal_id

  -- A session without an organization needs no context.
  abbrev IsAllowed : Option String → String → Type 0
  IsAllowed none principal_id = Unit
  IsAllowed (some organization_id) principal_id = IsActiveContext db organization_id principal_id

  context-IsAllowed :
      (organization_id : Option String) (principal_id : String)
      → context_allows db organization_id principal_id ≡ true
      → IsAllowed organization_id principal_id
  unfolding context_allows
  context-IsAllowed none principal_id allowed = tt
  context-IsAllowed (some organization_id) principal_id allowed =
      lock_active-IsActiveContext db organization_id principal_id allowed

  created-allowed :
      (now : ℕ) (p : CreateRefreshSessionParams) (db' : Db)
      → create_refresh_session token_hash now p db ≡ ok db'
      → context_allows db p.organization_id p.principal_id ≡ true
  unfolding create_refresh_session
  created-allowed now p db' done =
      elim (Bool-cases (context_allows db p.organization_id p.principal_id)) [
        | inl allowed ↦ allowed
        | inr closed ↦ ground (arith, done, closed)
      ]

  opens-IsAllowed :
      (organization_id : Option String) (principal_id : String)
      → Opens organization_id principal_id
      → IsAllowed organization_id principal_id
  opens-IsAllowed _ _ (created now p db' done) =
      context-IsAllowed p.organization_id p.principal_id (created-allowed now p db' done)
  opens-IsAllowed _ _ (rotated now token expected new c db' done) =
      let r = consume-IsRotation token_hash now token expected new db c db' done in
      subst (λ x. IsAllowed x.organization_id x.principal_id) (sym r.reported)
        (context-IsAllowed r.session.organization_id r.session.principal_id r.in_scope.allowed)

  -- A session of an organization is created, or its token rotated, only while the organization is
  -- active, the principal is active and stands for an active person with a known class, customers
  -- only in organizations for customers, and the person is an active member of it.
  pub opens-IsActiveContext :
      (organization_id principal_id : String)
      → Opens (some organization_id) principal_id
      → IsActiveContext db organization_id principal_id
  opens-IsActiveContext organization_id principal_id =
      opens-IsAllowed (some organization_id) principal_id
