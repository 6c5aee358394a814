-- ===== src/Access/Middleware/Administrators.antt =====
-- Which requests reach the administrators' handlers.
use mathlib.Core.Path.{subst}
use keylo.Base.{
  String, Bool, true, false, Option, none, some, ◌≡◌, ◌↔◌, ◌⊎◌, inl, inr, refl, sym, ◌∙◌, arith,
  ◌==◌, if◌then◌else◌, Bool-cases,
}
use keylo.Base.Results.{ok, bind-eq-ok}
use keylo.Base.Text.{strip_prefix}
use keylo.Errors.{insufficient_role}
use keylo.Access.Claims.{Claims, has_role, has_scope, has_audience}
use keylo.Access.Checks.{ensure_access_claims, is_text}
use keylo.Access.Checks.Meaning.{ensure_access_claims_iff, is_text-eq}
use keylo.Access.Directory.{Directory}
use keylo.Access.Middleware.{
  AppState, passes, ask, database, admin_user, admin_client, is_admin_of, live_admin,
  recently_verified, mfa_state, mfa_gate, write_gate, admin_authorization_middleware,
}
use keylo.Base.Results.{map_err-eq-ok, ok_or-eq-ok}
use keylo.Access.Middleware.Admission.{passes-eq-ok}

-- The platform administrators that the database knows now: people and clients.
abbrev pub IsLiveAdmin : Directory → Claims → Type 0
IsLiveAdmin db claims =
    ((claims.principal_type ≡ some "user")
      × ((id : String) × (claims.uid ≡ some id) × (db.user_is_platform_admin id ≡ ok true)))
    ⊎ ((claims.principal_type ≡ some "client")
        × ((id : String) × (strip_prefix "client:" claims.sub ≡ some id)
            × (db.get_client_auth_info id ≡ ok (some true))))

admin_user-eq-ok :
    (db : Directory) (uid : Option String)
    → admin_user db uid ≡ ok true
    → (id : String) × (uid ≡ some id) × (db.user_is_platform_admin id ≡ ok true)
admin_user-eq-ok db none h = cc
admin_user-eq-ok db (some id) h = (id, refl, map_err-eq-ok _ _ h)

is_admin_of-eq-true : (o : Option Bool) → is_admin_of o ≡ true → o ≡ some true
is_admin_of-eq-true none h = cc
is_admin_of-eq-true (some b) h = ground (arith, h)

admin_client-eq-ok :
    (db : Directory) (client : Option String)
    → admin_client db client ≡ ok true
    → (id : String) × (client ≡ some id) × (db.get_client_auth_info id ≡ ok (some true))
admin_client-eq-ok db none h = cc
admin_client-eq-ok db (some id) h =
    let (info, found, same) =
      bind-eq-ok (ask "Database error during platform access check" (db.get_client_auth_info id)) _
        h in
    let admin : info ≡ some true = is_admin_of-eq-true info (ground (arith, same)) in
    (id, refl, subst (λ i. db.get_client_auth_info id ≡ ok i) admin (map_err-eq-ok _ _ found))

live_admin-eq-ok :
    (db : Directory) (claims : Claims) → live_admin db claims ≡ ok true → IsLiveAdmin db claims
unfolding live_admin
live_admin-eq-ok db claims h = elim (Bool-cases (is_text "user" claims.principal_type)) [
  | inl person ↦ inl (
    is_text-eq "user" claims.principal_type person,
    admin_user-eq-ok db claims.uid (ground (arith, h, person)),
  )
  | inr other ↦ elim (Bool-cases (is_text "client" claims.principal_type)) [
    | inl client ↦ inr (
      is_text-eq "client" claims.principal_type client,
      admin_client-eq-ok db (strip_prefix "client:" claims.sub) (ground (arith, h, other, client)),
    )
    | inr neither ↦ ground (arith, h, other, neither)
  ]
]

live_admin_complete :
    (db : Directory) (claims : Claims) → IsLiveAdmin db claims → live_admin db claims ≡ ok true
unfolding live_admin
live_admin_complete db claims (inl (person, known)) =
    let (id, uid, answer) = known in rw (person, uid, answer) refl
live_admin_complete db claims (inr (client, known)) =
    let (id, subject, answer) = known in rw (client, subject, answer) refl

-- The second factor of a person: none, where that is allowed, or one used recently.
abbrev pub SecondFactor : AppState → Directory → String → Claims → Type 0
SecondFactor s db id claims =
    ((s.mfa_require_for_admins ≡ false) × (db.totp_enabled id ≡ ok false))
    ⊎ ((db.totp_enabled id ≡ ok true) × (db.has_recent_mfa_verification id claims.jti ≡ ok true))

mfa_state-eq-ok :
    (s : AppState) (db : Directory) (id : String) (claims : Claims) (enabled : Bool)
    → mfa_state s db id claims enabled ≡ ok tt
    → db.totp_enabled id ≡ ok enabled
    → SecondFactor s db id claims
mfa_state-eq-ok s db id claims false h asked = inl (ground (arith, h), asked)
mfa_state-eq-ok s db id claims true h asked =
    let recently : recently_verified db id claims ≡ ok tt = ground (arith, h) in
    let (verified, answer, passed) =
      bind-eq-ok
        (ask "Database error during MFA verification check"
          (db.has_recent_mfa_verification id claims.jti))
        _ recently in
    let now : verified ≡ true = ground (arith, passed) in
    inr (
      asked,
      subst (λ v. db.has_recent_mfa_verification id claims.jti ≡ ok v) now
          (map_err-eq-ok _ _ answer),
    )

module _ (s : AppState) (method : String) (claims : Claims) where
  -- What an administrator's request has shown.
  pub record IsAdministrator : Type 0 where
    pub is_access : claims.token_type ≡ "access"
    pub role : has_role "admin" claims ≡ true
    pub scope : has_scope "admin" claims ≡ true
    pub audience : has_audience "admin-backend" claims ≡ true
    pub db : Directory
    pub connected : s.db ≡ some db
    pub authority : IsLiveAdmin db claims
    pub write_allowed : write_gate s db method claims ≡ ok tt

  admin-IsAdministrator :
      admin_authorization_middleware s method (some claims) ≡ ok tt → IsAdministrator
  unfolding admin_authorization_middleware mfa_gate
  admin-IsAdministrator h =
      let access =
        ensure_access_claims (some "admin") (some "admin") (some "admin-backend") claims in
      let (_, claimed, h₁) = bind-eq-ok (passes access) _ h in
      let (db, connected, h₂) =
        bind-eq-ok (database "Database unavailable for platform access check" s) _ h₁ in
      let (allowed, live, h₃) = bind-eq-ok (live_admin db claims) _ h₂ in
      let (_, admin, write) =
        bind-eq-ok (passes (if allowed then none else some insufficient_role)) _ h₃ in
      let is_admin : allowed ≡ true = ground (arith, admin) in
      let (is_access, role, scope, audience) =
        (ensure_access_claims_iff (some "admin") (some "admin") (some "admin-backend") claims).0
          (passes-eq-ok access claimed) in
      record {
        is_access = is_access;
        role = role;
        scope = scope;
        audience = audience;
        db = db;
        connected = ok_or-eq-ok _ s.db connected;
        authority =
            live_admin-eq-ok db claims (subst (λ a. live_admin db claims ≡ ok a) is_admin live);
        write_allowed = write;
      }

  -- An administrators' handler runs exactly for an access token with the admin role, scope and
  -- audience, whose person or client the database holds to be a platform administrator now, and
  -- whose request passes the check of the second factor.
  pub admin_authorization_iff :
      (admin_authorization_middleware s method (some claims) ≡ ok tt) ↔ IsAdministrator
  unfolding admin_authorization_middleware mfa_gate
  admin_authorization_iff = (
    admin-IsAdministrator,
    λ a.
        rw
          (
            (ensure_access_claims_iff (some "admin") (some "admin") (some "admin-backend") claims).1
                (a.is_access, a.role, a.scope, a.audience),
            a.connected,
            live_admin_complete a.db claims a.authority,
          )
          a.write_allowed,
  )

  write_gate-person :
      (db : Directory) (id : String)
      → (method == "GET") ≡ false
      → claims.principal_type ≡ some "user"
      → claims.uid ≡ some id
      → write_gate s db method claims ≡ mfa_gate s db claims (some id)
  write_gate-person db id writes person uid = rw (writes, person, uid) refl

  mfa_gate-SecondFactor :
      (db : Directory) (id : String)
      → mfa_gate s db claims (some id) ≡ ok tt
      → SecondFactor s db id claims
  unfolding mfa_gate
  mfa_gate-SecondFactor db id h =
      let (enabled, answer, state) =
        bind-eq-ok (ask "Database error during MFA check" (db.totp_enabled id)) _ h in
      mfa_state-eq-ok s db id claims enabled state (map_err-eq-ok _ _ answer)

  -- A person's request to an administrators' handler, other than a GET, runs only if the person has
  -- used an enabled second factor recently, or has none and the configuration does not demand one.
  pub admin-SecondFactor :
      (db : Directory) (id : String)
      → admin_authorization_middleware s method (some claims) ≡ ok tt
      → s.db ≡ some db
      → (method == "GET") ≡ false
      → claims.principal_type ≡ some "user"
      → claims.uid ≡ some id
      → SecondFactor s db id claims
  admin-SecondFactor db id h connected writes person uid =
      let admin = admin-IsAdministrator h in
      let same : admin.db ≡ db = ground (arith, admin.connected, connected) in
      let write = subst (λ d. write_gate s d method claims ≡ ok tt) same admin.write_allowed in
      mfa_gate-SecondFactor db id (sym (write_gate-person db id writes person uid) ∙ write)
