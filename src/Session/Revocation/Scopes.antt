-- ===== src/Session/Revocation/Scopes.antt =====
-- What a revocation reaches, and what it leaves alone.
use keylo.Base.{
  update_where, ℕ, ◌≤◌, String, Bool, false, ◌&&◌, Option, some, List, [], ◌∷◌, ◌≡◌, refl, arith,
  ◌==◌, any, count, retain, not, ltb,
}
use keylo.Session.Tables.{RefreshSession, Db, is_none, same_text, revoke}
use keylo.Session.Revocation.{
  revoke_principal_refresh_sessions, revoke_organization_refresh_sessions,
  has_active_refresh_session_for_principal,
}

any-update_where :
    (now later : ℕ) (p : String) (reason : Option String) (ss : List RefreshSession)
    → any
        (λ s. s.principal_id == p && is_none s.revoked_at && ltb later s.expires_at)
        (update_where (λ s. s.principal_id == p && is_none s.revoked_at) (revoke now reason) ss)
      ≡ false
any-update_where now later p reason [] = refl
any-update_where now later p reason (s ∷ ss) =
    ground (arith, any-update_where now later p reason ss)

-- Revoking a principal's sessions leaves it with no active session, at any time.
pub has_active-revoke_principal :
    (now later : ℕ) (principal_id : String) (reason : Option String) (db : Db)
    → has_active_refresh_session_for_principal later principal_id
        (revoke_principal_refresh_sessions now principal_id reason db).1
      ≡ false
unfolding has_active_refresh_session_for_principal revoke_principal_refresh_sessions
has_active-revoke_principal now later p reason db =
    any-update_where now later p reason db.refresh_sessions

abbrev pub in_organization : String → RefreshSession → Bool
in_organization organization_id s = same_text s.organization_id (some organization_id)

abbrev pub is_live : ℕ → RefreshSession → Bool
is_live now s = is_none s.revoked_at && ltb now s.expires_at

module _ (now : ℕ) (o : String) (reason : Option String) where
  abbrev revoked : List RefreshSession → List RefreshSession
  revoked ss =
      update_where (λ s. in_organization o s && is_none s.revoked_at && ltb now s.expires_at)
        (revoke now reason) ss

  count-revoked :
      (later : ℕ) (ss : List RefreshSession)
      → now ≤ later
      → count (λ s. in_organization o s && is_live later s) (revoked ss) ≡ 0
  count-revoked later [] h = refl
  count-revoked later (s ∷ ss) h = ground (arith, count-revoked later ss h)

  count-live :
      (ss : List RefreshSession)
      → count (λ s. in_organization o s && is_none s.revoked_at && ltb now s.expires_at) ss
        ≡ count (λ s. in_organization o s && is_live now s) ss
  count-live [] = refl
  count-live (s ∷ ss) = ground (arith, count-live ss)

  retain-revoked :
      (ss : List RefreshSession)
      → retain (λ s. not (in_organization o s)) (revoked ss)
        ≡ retain (λ s. not (in_organization o s)) ss
  retain-revoked [] = refl
  retain-revoked (s ∷ ss) = ground (arith, retain-revoked ss)

-- Revoking an organization's sessions leaves none of them live from then on, leaves platform
-- sessions and those of every other organization as they were, and reports how many were live.
pub revoke_organization_exact :
    (now later : ℕ) (organization_id : String) (reason : Option String) (db : Db)
    → now ≤ later
    → let (affected, db') = revoke_organization_refresh_sessions now organization_id reason db in
      (affected
        ≡ count (λ s. in_organization organization_id s && is_live now s) db.refresh_sessions)
      × (count (λ s. in_organization organization_id s && is_live later s) db'.refresh_sessions ≡ 0)
      × (retain (λ s. not (in_organization organization_id s)) db'.refresh_sessions
          ≡ retain (λ s. not (in_organization organization_id s)) db.refresh_sessions)
unfolding revoke_organization_refresh_sessions
revoke_organization_exact now later o reason db h = (
  count-live now o reason db.refresh_sessions,
  count-revoked now o reason later db.refresh_sessions h,
  retain-revoked now o reason db.refresh_sessions,
)
