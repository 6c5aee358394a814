-- ===== src/Access/Middleware.antt =====
-- The middleware: each passes a request on with its claims, or answers it.
pub mod Admission
pub mod Services
pub mod Administrators
pub mod Liveness
use keylo.Base.{String, Bool, true, false, not, ◌&&◌, ◌||◌, Option, none, some, ◌==◌, if◌then◌else◌}
use keylo.Base.Results.{Result, ok, err, ◌>>=◌, map_err, ok_or}
use keylo.Base.Text.{strip_prefix}
use keylo.Errors.{
  AuthError, database_error, unauthorized, forbidden, invalid_token, insufficient_role,
  token_type_invalid,
}
use keylo.Access.Claims.{Claims, ServiceClaims}
use keylo.Access.Checks.{
  password_change_allowed_path, ensure_password_change_complete, ensure_access_claims,
  ensure_customer_support_access_claims, is_text,
}
use keylo.Access.Directory.{Answer, PrincipalRow, UserRow, Directory}

-- The two answers of the administrators' middleware that are not an `AuthError`.
pub data Denial : Type 0 where
  denied : AuthError → Denial
  mfa_enrollment_required : Denial
  mfa_required : Denial

abbrev pub Gate : Type 0 → Type 0
Gate A = Result A Denial

-- The part of `AppState` that the middleware reads. Keys.Tokens models the decoders.
pub record AppState : Type 0 where
  pub decode_token : String → Result Claims AuthError
  pub decode_service_token : String → Result ServiceClaims AuthError
  pub decode_service_token_for_audience : String → String → Result ServiceClaims AuthError
  pub db : Option Directory
  pub mfa_require_for_admins : Bool

abbrev pub passes : Option AuthError → Gate (Unit {0})
passes none = ok tt
passes (some e) = err (denied e)

abbrev pub refuse : {A : Type 0} → AuthError → Gate A
refuse e = err (denied e)

-- A query's answer, or the database error with this text.
abbrev pub ask : {A : Type 0} → String → Answer A → Gate A
ask message = map_err (λ _. denied (database_error message))

abbrev pub bearer_token : Option String → Gate String
bearer_token auth = ok_or (denied unauthorized) auth

abbrev active_principal : Option PrincipalRow → Gate (Unit {0})
active_principal none = refuse invalid_token
active_principal (some principal) = if principal.active then ok tt else refuse invalid_token

abbrev active_user : Option UserRow → Gate (Unit {0})
active_user none = refuse invalid_token
active_user (some user) = if user.active then ok tt else refuse invalid_token

-- A token without a principal id falls back to its user, if it is a user's.
abbrev user_part : Directory → Bool → Option String → Gate (Unit {0})
user_part db is_user none = ok tt
user_part db is_user (some user_id) =
    if is_user
    then (do row ← ask "Failed to resolve token user" (db.get_user_by_id user_id); active_user row)
    else ok tt

abbrev principal_part : Directory → Claims → Option String → Gate (Unit {0})
principal_part db claims none = user_part db (is_text "user" claims.principal_type) claims.uid
principal_part db claims (some principal_id) = do
  row ← ask "Failed to resolve token principal" (db.get_principal_by_id principal_id)
  active_principal row

unfoldable pub ensure_claim_principal_active : Directory → Claims → Gate (Unit {0})
ensure_claim_principal_active db claims = principal_part db claims claims.principal_id

-- With this text when the query fails.
abbrev pub not_blacklisted : String → Directory → String → Gate (Unit {0})
not_blacklisted message db token = do
  blacklisted ← ask message (db.is_token_blacklisted token)
  if blacklisted then refuse invalid_token else ok tt

-- Without a database nothing is looked up.
unfoldable pub live_token : Option Directory → String → Claims → Gate (Unit {0})
live_token none token claims = ok tt
live_token (some db) token claims = do
  _ ← not_blacklisted "Database error during token validation" db token
  ensure_claim_principal_active db claims

abbrev pub password_gate : String → Claims → Gate (Unit {0})
password_gate path claims =
    if password_change_allowed_path path
    then ok tt
    else passes (ensure_password_change_complete claims)

abbrev pub access_type : Claims → Gate (Unit {0})
access_type claims =
    if not (claims.token_type == "access") then refuse token_type_invalid else ok tt

unfoldable pub auth_middleware : AppState → Option String → String → Gate Claims
auth_middleware s auth path = do
  token ← bearer_token auth
  claims ← map_err denied (s.decode_token token)
  _ ← access_type claims
  _ ← live_token s.db token claims
  _ ← password_gate path claims
  ok claims

abbrev pub database : String → AppState → Gate Directory
database message s = ok_or (denied (database_error message)) s.db

unfoldable pub customer_support_auth_middleware : AppState → Option String → Gate Claims
customer_support_auth_middleware s auth = do
  token ← bearer_token auth
  claims ← map_err denied (s.decode_token token)
  _ ← passes (ensure_customer_support_access_claims claims)
  db ← database "Database required for customer-support authentication" s
  _ ← not_blacklisted "Token validation failed" db token
  _ ← ensure_claim_principal_active db claims
  ok claims

abbrev is_admin_of : Option Bool → Bool
is_admin_of none = false
is_admin_of (some is_admin) = is_admin

abbrev admin_user : Directory → Option String → Gate Bool
admin_user db none = refuse invalid_token
admin_user db (some user_id) =
    ask "Database error during platform access check" (db.user_is_platform_admin user_id)

abbrev admin_client : Directory → Option String → Gate Bool
admin_client db none = refuse invalid_token
admin_client db (some client_id) = do
  info ← ask "Database error during platform access check" (db.get_client_auth_info client_id)
  ok (is_admin_of info)

-- The principal type decides what is looked up.
unfoldable pub live_admin : Directory → Claims → Gate Bool
live_admin db claims =
    if is_text "user" claims.principal_type
    then admin_user db claims.uid
    else if is_text "client" claims.principal_type
    then admin_client db (strip_prefix "client:" claims.sub)
    else refuse insufficient_role

abbrev recent : Bool → Gate (Unit {0})
recent verified = if verified then ok tt else err mfa_required

abbrev recently_verified : Directory → String → Claims → Gate (Unit {0})
recently_verified db user_id claims = do
  verified ←
      ask "Database error during MFA verification check"
        (db.has_recent_mfa_verification user_id claims.jti)
  recent verified

abbrev mfa_state : AppState → Directory → String → Claims → Bool → Gate (Unit {0})
mfa_state s db user_id claims mfa_enabled =
    if s.mfa_require_for_admins && not mfa_enabled
    then err mfa_enrollment_required
    else if mfa_enabled
    then recently_verified db user_id claims
    else ok tt

-- A person's request other than GET.
unfoldable pub mfa_gate : AppState → Directory → Claims → Option String → Gate (Unit {0})
mfa_gate s db claims none = ok tt
mfa_gate s db claims (some user_id) = do
  mfa_enabled ← ask "Database error during MFA check" (db.totp_enabled user_id)
  mfa_state s db user_id claims mfa_enabled

abbrev pub write_gate : AppState → Directory → String → Claims → Gate (Unit {0})
write_gate s db method claims =
    if not (method == "GET") && is_text "user" claims.principal_type
    then mfa_gate s db claims claims.uid
    else ok tt

-- The claims that `auth_middleware` left, if it ran.
unfoldable pub admin_authorization_middleware : AppState → String → Option Claims → Gate (Unit {0})
admin_authorization_middleware s method extension = do
  claims ← ok_or (denied unauthorized) extension
  _ ← passes (ensure_access_claims (some "admin") (some "admin") (some "admin-backend") claims)
  db ← database "Database unavailable for platform access check" s
  allowed ← live_admin db claims
  _ ← passes (if allowed then none else some insufficient_role)
  write_gate s db method claims

abbrev internal_employee : Option UserRow → Gate Bool
internal_employee none = refuse invalid_token
internal_employee (some user) =
    if user.active then ok (user.user_class == "internal_employee") else refuse invalid_token

abbrev platform_user : Directory → Option String → Gate Bool
platform_user db none = refuse invalid_token
platform_user db (some user_id) = do
  row ← ask "Database error during platform access check" (db.get_user_by_id user_id)
  internal_employee row

abbrev platform_client : Directory → Option String → Gate Bool
platform_client db none = refuse invalid_token
platform_client db (some client_id) = do
  info ← ask "Database error during platform access check" (db.get_client_auth_info client_id)
  ok_or (denied invalid_token) info

unfoldable pub platform_access : Directory → Claims → Gate Bool
platform_access db claims =
    if is_text "user" claims.principal_type
    then platform_user db claims.uid
    else if is_text "client" claims.principal_type
    then platform_client db (strip_prefix "client:" claims.sub)
    else refuse insufficient_role

unfoldable pub platform_admin_authorization_middleware : AppState → Option Claims → Gate (Unit {0})
platform_admin_authorization_middleware s extension = do
  claims ← ok_or (denied unauthorized) extension
  db ← database "Database unavailable for platform access check" s
  allowed ← platform_access db claims
  passes (if allowed then none else some forbidden)

unfoldable pub user_authorization_middleware : Option Claims → Gate (Unit {0})
user_authorization_middleware extension = do
  claims ← ok_or (denied unauthorized) extension
  passes (ensure_access_claims (some "user") (some "write") (some "admin-backend") claims)
