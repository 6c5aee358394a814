-- ===== src/Access/Checks.antt =====
-- The checks of claims alone. `none` is `Ok(())`.
pub mod Meaning
use keylo.Base.{
  String, Bool, true, false, not, ◌&&◌, ◌||◌, Option, none, some, List, ◌==◌, any, if◌then◌else◌,
}
use keylo.Base.Text.{is_empty, strip_prefix}
use keylo.Errors.{
  AuthError, token_type_invalid, insufficient_role, insufficient_scope, invalid_audience,
  invalid_token, password_change_required,
}
use keylo.Access.Claims.{Claims, ServiceClaims, has_scope, has_audience, has_role}

abbrev pub password_change_allowed_path : String → Bool
password_change_allowed_path path =
    path == "/v1/auth/me"
    || path == "/v1/auth/logout"
    || path == "/v1/user/change-password"
    || path == "/v1/user/mfa/verify"

unfoldable pub ensure_password_change_complete : Claims → Option AuthError
ensure_password_change_complete claims =
    if claims.password_change_required then some password_change_required else none

abbrev pub service_id_from_subject : String → Option String
service_id_from_subject subject = strip_prefix "service:" subject

-- A requirement that a caller may leave out.
abbrev pub meets : Option String → (String → Bool) → Bool
meets none test = true
meets (some required) test = test required

unfoldable pub ensure_access_claims :
    Option String → Option String → Option String → Claims → Option AuthError
ensure_access_claims required_role required_scope required_audience claims =
    if not (claims.token_type == "access")
    then some token_type_invalid
    else if not (meets required_role (λ role. has_role role claims))
    then some insufficient_role
    else if not (meets required_scope (λ scope. has_scope scope claims))
    then some insufficient_scope
    else if not (meets required_audience (λ audience. has_audience audience claims))
    then some invalid_audience
    else none

-- `as_deref() != Some(expected)`, negated
abbrev pub is_text : String → Option String → Bool
is_text expected none = false
is_text expected (some value) = value == expected

-- `as_deref().is_none_or(str::is_empty)`
abbrev pub is_missing : Option String → Bool
is_missing none = true
is_missing (some value) = is_empty value

unfoldable pub ensure_customer_support_access_claims : Claims → Option AuthError
ensure_customer_support_access_claims claims =
    if not (claims.token_type == "customer_support_access")
    then some token_type_invalid
    else if not (is_text "user" claims.principal_type)
        || is_missing claims.uid
        || is_missing claims.principal_id
        || is_missing claims.organization_id
        || is_missing claims.customer_support_grant_id
    then some invalid_token
    else if not (has_role "customer_support" claims)
    then some insufficient_role
    else if not (has_audience "admin-backend" claims)
    then some invalid_audience
    else none

unfoldable pub ensure_service_claims :
    Option String → Option String → ServiceClaims → Option AuthError
ensure_service_claims required_scope required_audience claims =
    if not (claims.token_type == "service_access")
    then some token_type_invalid
    else if not (is_text "service" claims.role)
    then some insufficient_role
    else if not (meets required_scope (λ scope. any (λ value. value == scope) claims.scope))
    then some insufficient_scope
    else if not (meets required_audience (λ audience. claims.aud == audience || claims.aud == "*"))
    then some invalid_audience
    else none
