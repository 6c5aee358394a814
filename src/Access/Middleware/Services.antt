-- ===== src/Access/Middleware/Services.antt =====
-- The middleware for service tokens.
pub mod Meaning
use keylo.Base.{String, Bool, false, not, ◌||◌, Option, none, some, if◌then◌else◌, is_some}
use keylo.Base.Results.{Result, ok, ◌>>=◌, map_err, ok_or}
use keylo.Errors.{AuthError, unauthorized, forbidden, invalid_token}
use keylo.Access.Claims.{ServiceClaims}
use keylo.Access.Checks.{service_id_from_subject, ensure_service_claims, is_text}
use keylo.Access.Directory.{Directory}
use keylo.Access.Middleware.{
  denied, Gate, AppState, passes, ask, bearer_token, not_blacklisted, database,
}

unfoldable pub ensure_service_claims_live : AppState → ServiceClaims → Gate (Unit {0})
ensure_service_claims_live s claims = do
  service_id ← ok_or (denied invalid_token) (service_id_from_subject claims.sub)
  _ ← passes (
      if not (is_some claims.principal_id) || not (is_text "service" claims.principal_type)
      then some invalid_token
      else none)
  db ← database "Database required for service authentication" s
  active ←
      ask "Service authorization failed"
        (db.service_token_context_is_active service_id claims.principal_id claims.organization_id)
  passes (if active then none else some forbidden)

abbrev service_not_blacklisted : Option Directory → String → Gate (Unit {0})
service_not_blacklisted none token = ok tt
service_not_blacklisted (some db) token = not_blacklisted "Token validation failed" db token

-- From the decoded claims on, which the two middlewares share.
abbrev service_live : AppState → String → Result ServiceClaims AuthError → Gate ServiceClaims
service_live s token decoded = do
  claims ← map_err denied decoded
  _ ← service_not_blacklisted s.db token
  _ ← ensure_service_claims_live s claims
  ok claims

unfoldable pub service_auth_middleware : AppState → Option String → Gate ServiceClaims
service_auth_middleware s auth = do
  token ← bearer_token auth
  service_live s token (s.decode_service_token token)

unfoldable pub service_integration_auth_middleware : AppState → Option String → Gate ServiceClaims
service_integration_auth_middleware s auth = do
  token ← bearer_token auth
  service_live s token (s.decode_service_token_for_audience token "admin-backend")

abbrev pub introspection_allowed : Option Directory → String → Gate Bool
introspection_allowed none service_id = ok false
introspection_allowed (some db) service_id =
    ask "Service authorization failed" (db.service_introspection_allowed service_id)

-- The two authorization middlewares differ in the audience that they require.
abbrev pub service_authorization : Option String → AppState → Option ServiceClaims → Gate (Unit {0})
service_authorization required_audience s extension = do
  claims ← ok_or (denied unauthorized) extension
  _ ← passes (ensure_service_claims (some "read") required_audience claims)
  service_id ← ok_or (denied invalid_token) (service_id_from_subject claims.sub)
  allowed ← introspection_allowed s.db service_id
  passes (if allowed then none else some forbidden)

unfoldable pub service_integration_authorization_middleware :
    AppState → Option ServiceClaims → Gate (Unit {0})
service_integration_authorization_middleware = service_authorization (some "admin-backend")

unfoldable pub service_read_authorization_middleware :
    AppState → Option ServiceClaims → Gate (Unit {0})
service_read_authorization_middleware = service_authorization none
