-- ===== src/Access/Middleware/Services/Meaning.antt =====
-- Which service requests reach the handlers for services.
use mathlib.Core.Path.{subst}
use keylo.Base.{String, true, ◌||◌, Option, none, some, ◌≡◌, ◌↔◌, refl, arith, ◌==◌, eq_iff, any}
use keylo.Base.Results.{ok, bind-eq-ok, ok_or}
use keylo.Errors.{invalid_token}
use keylo.Access.Claims.{ServiceClaims}
use keylo.Access.Checks.{meets, service_id_from_subject, ensure_service_claims}
use keylo.Access.Checks.Meaning.{is_text-eq}
use keylo.Access.Directory.{Directory}
use keylo.Access.Middleware.{denied, AppState, passes}
use keylo.Base.Results.{map_err-eq-ok, ok_or-eq-ok}
use keylo.Access.Middleware.Admission.{passes-eq-ok}
use keylo.Access.Middleware.Services.{
  introspection_allowed, service_authorization, service_integration_authorization_middleware,
  service_read_authorization_middleware,
}

-- Service claims for reading, for this audience if one is required.
pub record IsReader (required_audience : Option String) (claims : ServiceClaims) : Type 0 where
  pub is_service_access : claims.token_type ≡ "service_access"
  pub role : claims.role ≡ some "service"
  pub scope : any (λ value. value == "read") claims.scope ≡ true
  pub audience : meets required_audience (λ a. claims.aud == a || claims.aud == "*") ≡ true

-- A service that the database lets introspect tokens now.
pub record IsIntrospector (s : AppState) (claims : ServiceClaims) : Type 0 where
  pub db : Directory
  pub service_id : String
  pub connected : s.db ≡ some db
  pub named : service_id_from_subject claims.sub ≡ some service_id
  pub allowed : db.service_introspection_allowed service_id ≡ ok true

ensure_service_claims-IsReader :
    (audience : Option String) (claims : ServiceClaims)
    → (ensure_service_claims (some "read") audience claims ≡ none) ↔ IsReader audience claims
unfolding ensure_service_claims
ensure_service_claims-IsReader audience claims = (
  λ h. record {
    is_service_access = (eq_iff claims.token_type "service_access").0 (ground (arith, h));
    role = is_text-eq "service" claims.role (ground (arith, h));
    scope = ground (arith, h);
    audience = ground (arith, h);
  },
  λ r. rw (r.is_service_access, r.role, r.scope, r.audience) refl,
)

introspection-IsIntrospector :
    (s : AppState) (claims : ServiceClaims) (db : Option Directory) (id : String)
    → s.db ≡ db
    → service_id_from_subject claims.sub ≡ some id
    → introspection_allowed db id ≡ ok true
    → IsIntrospector s claims
introspection-IsIntrospector s claims none id connected named h = cc
introspection-IsIntrospector s claims (some db) id connected named h = record {
  db = db;
  service_id = id;
  connected = connected;
  named = named;
  allowed = map_err-eq-ok _ _ h;
}

module _ (audience : Option String) (s : AppState) (claims : ServiceClaims) where
  authorized :
      service_authorization audience s (some claims) ≡ ok tt
      → IsReader audience claims × IsIntrospector s claims
  authorized h =
      let check = ensure_service_claims (some "read") audience claims in
      let (_, checked, h₁) = bind-eq-ok (passes check) _ h in
      let (id, named, h₂) =
        bind-eq-ok (ok_or (denied invalid_token) (service_id_from_subject claims.sub)) _ h₁ in
      let (allowed, answer, passed) = bind-eq-ok (introspection_allowed s.db id) _ h₂ in
      let yes_allowed : allowed ≡ true = ground (arith, passed) in
      (
        (ensure_service_claims-IsReader audience claims).0 (passes-eq-ok check checked),
        introspection-IsIntrospector s claims s.db id refl (ok_or-eq-ok _ _ named)
            (subst (λ b. introspection_allowed s.db id ≡ ok b) yes_allowed answer),
      )

  service_authorization-meaning :
      (service_authorization audience s (some claims) ≡ ok tt)
      ↔ IsReader audience claims × IsIntrospector s claims
  service_authorization-meaning = (
    authorized,
    λ (reader, i).
        rw
          (
            (ensure_service_claims-IsReader audience claims).1 reader,
            i.named,
            i.connected,
            i.allowed,
          )
          refl,
  )

-- The handlers for introspection run exactly for a service token with the service role and the read
-- scope, whose service the database lets introspect now; those for integration run exactly if, in
-- addition, the token's audience is the backend's or the wildcard.
pub service_authorization_iff :
    (s : AppState) (claims : ServiceClaims)
    → ((service_read_authorization_middleware s (some claims) ≡ ok tt)
        ↔ IsReader none claims × IsIntrospector s claims)
      × ((service_integration_authorization_middleware s (some claims) ≡ ok tt)
          ↔ IsReader (some "admin-backend") claims × IsIntrospector s claims)
unfolding service_read_authorization_middleware service_integration_authorization_middleware
service_authorization_iff s claims = (
  service_authorization-meaning none s claims,
  service_authorization-meaning (some "admin-backend") s claims,
)
