-- ===== src/Session/Policy/Single.antt =====
-- What a single-session policy promises.
use keylo.Base.{
  ℕ, ◌≤◌, String, Bool, true, false, ◌&&◌, Option, none, some, List, [], ◌∷◌, ◌++◌, ◌≡◌, refl,
  arith, ◌==◌, ltb, any, count, count-append, count-le-length, ◌↔◌, ◌⊎◌, Bool-cases, inl, inr, ◌∙◌,
  ap,
}
use keylo.Errors.{AuthError, conflict}
use keylo.Base.Results.{ok, bind-eq-ok}
use keylo.Session.Tables.{
  RefreshSession, RefreshToken, Principal, Db, is_none, insert_session, insert_token,
}
use keylo.Session.Lifecycle.{
  CreateRefreshSessionParams, new_session, new_token, create_refresh_session,
}
use keylo.Session.Revocation.{has_active_refresh_session_for_principal}
use keylo.Session.Revocation.Scopes.{has_active-revoke_principal}
use keylo.Session.Policy.{
  Desk, policy_applies, take_over, audit_event, enforce_refresh_session_policy,
}

-- The sessions of a principal that are active at a time.
abbrev pub active_sessions : ℕ → String → Db → ℕ
active_sessions now principal_id db =
    count (λ s. s.principal_id == principal_id && is_none s.revoked_at && ltb now s.expires_at)
      db.refresh_sessions

count-any : {A : Type 0} (test : A → Bool) (xs : List A) → any test xs ≡ false → count test xs ≡ 0
count-any test [] h = refl
count-any test (x ∷ xs) h = ground (arith, count-any test xs)

any-later :
    (p : String) (now later : ℕ) (ss : List RefreshSession)
    → now ≤ later
    → any (λ s. s.principal_id == p && is_none s.revoked_at && ltb now s.expires_at) ss ≡ false
    → any (λ s. s.principal_id == p && is_none s.revoked_at && ltb later s.expires_at) ss ≡ false
any-later p now later [] le h = refl
any-later p now later (s ∷ ss) le h = ground (arith, any-later p now later ss)

-- The login's times are in order: the check, the takeover, and any later moment.
module _ (policy : String) (written : Bool) (checked now later : ℕ) (principal : Principal)
    (force : Bool) (d : Desk) where
  abbrev after : Option AuthError × Desk
  after = enforce_refresh_session_policy policy written checked now principal force d

  idle_after :
      checked ≤ later
      → policy_applies policy principal ≡ true
      → after.0 ≡ none
      → has_active_refresh_session_for_principal checked principal.id d.db ≡ false
      → active_sessions later principal.id after.1.db ≡ 0
  unfolding enforce_refresh_session_policy has_active_refresh_session_for_principal
  idle_after le applies passed idle =
      rw (applies, idle)
        (count-any _ _ (any-later principal.id checked later d.db.refresh_sessions le idle))

  taken_over :
      policy_applies policy principal ≡ true
      → after.0 ≡ none
      → has_active_refresh_session_for_principal checked principal.id d.db ≡ true
      → after.1 ≡ take_over written now principal d
  unfolding enforce_refresh_session_policy
  taken_over applies passed active = ground (arith, applies, passed, active)

  active_sessions-take_over :
      active_sessions later principal.id (take_over written now principal d).db ≡ 0
  unfolding take_over audit_event has_active_refresh_session_for_principal
  active_sessions-take_over =
      count-any _ _
        (has_active-revoke_principal now later principal.id (some "session_takeover") d.db)

  -- When a policy applies and lets a login go on, the principal has no active session from then on.
  enforce-clears :
      checked ≤ later
      → policy_applies policy principal ≡ true
      → after.0 ≡ none
      → active_sessions later principal.id after.1.db ≡ 0
  enforce-clears le applies passed =
      elim (Bool-cases (has_active_refresh_session_for_principal checked principal.id d.db)) [
        | inl active ↦
            ap (λ e. active_sessions later principal.id e.db) (taken_over applies passed active)
            ∙ active_sessions-take_over
        | inr idle ↦ idle_after le applies passed idle
      ]

-- A login under a policy that applies is refused exactly when the principal has an active session
-- and the takeover was not asked for; a refused login changes nothing, and there is no other refusal.
pub enforce-refuses :
    (policy : String) (written : Bool) (checked now : ℕ) (principal : Principal) (force : Bool)
    (d : Desk)
    → policy_applies policy principal ≡ true
    → let answer = enforce_refresh_session_policy policy written checked now principal force d in
      let refusal : Option AuthError × Desk = (some (conflict "active_session_exists"), d) in
      ((answer ≡ refusal)
        ↔ (has_active_refresh_session_for_principal checked principal.id d.db ≡ true)
          × (force ≡ false))
      × ((answer.0 ≡ none) ⊎ (answer ≡ refusal))
unfolding enforce_refresh_session_policy
enforce-refuses policy written checked now principal force d applies =
    (ground (arith, applies), ground (arith, applies))

insert_token-sessions :
    (t : RefreshToken) (db db' : Db)
    → insert_token t db ≡ ok db'
    → db'.refresh_sessions ≡ db.refresh_sessions
unfolding insert_token
insert_token-sessions t db db' e = ground arith

insert_session-sessions :
    (s : RefreshSession) (db db' : Db)
    → insert_session s db ≡ ok db'
    → db'.refresh_sessions ≡ db.refresh_sessions ++ s ∷ []
unfolding insert_session
insert_session-sessions s db db' e = ground arith

create-sessions :
    (token_hash : String → String) (now : ℕ) (p : CreateRefreshSessionParams) (db db' : Db)
    → create_refresh_session token_hash now p db ≡ ok db'
    → (s : RefreshSession) × (db'.refresh_sessions ≡ db.refresh_sessions ++ s ∷ [])
unfolding create_refresh_session
create-sessions token_hash now p db db' e =
    let (db₁, inserted, e') =
      bind-eq-ok (insert_session (new_session now p) db)
        (insert_token
          (new_token now p.refresh_token_id p.session_id (token_hash p.refresh_token) p.expires_at))
        (ground arith) in
    (_, insert_token-sessions _ db₁ db' e' ∙ insert_session-sessions _ db db₁ inserted)

-- A login: the policy, and then the creation of its session.
-- After a login under a policy that applies, the principal has at most one active session, at every
-- time from the policy's check on, whatever sessions it had before and whosever session is created.
pub login-single :
    (policy : String) (written : Bool) (checked now : ℕ) (principal : Principal) (force : Bool)
    (d : Desk) (token_hash : String → String) (created later : ℕ) (p : CreateRefreshSessionParams)
    (db' : Db)
    → checked ≤ later
    → policy_applies policy principal ≡ true
    → let (error, d') =
        enforce_refresh_session_policy policy written checked now principal force d in
      error ≡ none
      → create_refresh_session token_hash created p d'.db ≡ ok db'
      → active_sessions later principal.id db' ≤ 1
login-single policy written checked now principal force d token_hash created later p db' le applies
      passed e =
    let (s, sessions) = create-sessions token_hash created p _ db' e in
    let test : RefreshSession → Bool =
      λ s. s.principal_id == principal.id && is_none s.revoked_at && ltb later s.expires_at in
    rw sessions (
      omega (
        arith,
        count-append test _ (s ∷ []),
        enforce-clears policy written checked now later principal force d le applies passed,
        count-le-length test (s ∷ []),
      ))
