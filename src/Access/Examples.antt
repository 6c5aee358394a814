-- ===== src/Access/Examples.antt =====
-- One administrator, one support person and a database that knows them.
use keylo.Base.{true, false, none, some, [], ◌∷◌, ◌≡◌, ◌↔◌, refl, ◌==◌, if◌then◌else◌}
use keylo.Base.Results.{ok, err}
use keylo.Errors.{invalid_token}
use keylo.Access.Claims.{Claims, ServiceClaims}
use keylo.Access.Checks.{ensure_service_claims, ensure_password_change_complete}
use keylo.Access.Directory.{Directory}
use keylo.Access.Middleware.{
  AppState, live_token, ensure_claim_principal_active, auth_middleware,
  admin_authorization_middleware,
}
use keylo.Access.Middleware.Admission.{IsAuthenticated, auth_middleware_iff}
use keylo.Access.Middleware.Services.{
  service_read_authorization_middleware, service_integration_authorization_middleware,
}
use keylo.Access.Middleware.Services.Meaning.{IsReader, IsIntrospector, service_authorization_iff}
use keylo.Access.Middleware.Administrators.{IsAdministrator, admin_authorization_iff}

abbrev ann : Claims
ann = record {
  sub = "user:ann";
  uid = some "u1";
  principal_id = some "p1";
  principal_type = some "user";
  organization_id = none;
  customer_support_grant_id = none;
  iss = "keylo";
  aud = "admin-backend";
  scope = "read" ∷ "admin" ∷ [];
  role = "admin" ∷ [];
  token_type = "access";
  password_change_required = false;
  exp = 100;
  iat = 10;
  jti = "j1";
}

abbrev helper : Claims
helper = record ann {
  organization_id = some "o1";
  customer_support_grant_id = some "g1";
  role = "customer_support" ∷ [];
  token_type = "customer_support_access";
}

abbrev directory : Directory
directory = record {
  is_token_blacklisted = λ token. ok false;
  get_principal_by_id = λ id. ok (some (record { id = id; active = true }));
  get_user_by_id =
      λ id. ok (some (record { id = id; active = true; user_class = "internal_employee" }));
  user_is_platform_admin = λ id. ok true;
  get_client_auth_info = λ id. ok none;
  totp_enabled = λ id. ok true;
  has_recent_mfa_verification = λ id jti. ok (jti == "j1");
  service_token_context_is_active = λ id principal organization. ok true;
  service_introspection_allowed = λ id. ok true;
}

abbrev state : AppState
state = record {
  decode_token = λ token.
      if token == "a" then ok ann else if token == "s" then ok helper else err invalid_token;
  decode_service_token = λ token. err invalid_token;
  decode_service_token_for_audience = λ token audience. err invalid_token;
  db = some directory;
  mfa_require_for_admins = true;
}

ann_passes : auth_middleware state (some "a") "/v1/admin/users" ≡ ok ann
unfolding auth_middleware live_token ensure_claim_principal_active ensure_password_change_complete
ann_passes = refl

auth_middleware_iff_example :
    (auth_middleware state (some "a") "/v1/admin/users" ≡ ok ann)
    ↔ IsAuthenticated state (some "a") "/v1/admin/users" ann
auth_middleware_iff_example = auth_middleware_iff state (some "a") "/v1/admin/users" ann

admin_authorization_iff_example :
    (admin_authorization_middleware state "POST" (some ann) ≡ ok tt)
    ↔ IsAdministrator state "POST" ann
admin_authorization_iff_example = admin_authorization_iff state "POST" ann

abbrev crawler : ServiceClaims
crawler = record {
  sub = "service:crawler";
  principal_id = some "p9";
  principal_type = some "service";
  organization_id = none;
  iss = "keylo";
  aud = "admin-backend";
  scope = "read" ∷ [];
  role = some "service";
  token_type = "service_access";
  exp = 100;
  iat = 10;
  jti = "j9";
}

service_read-crawler : service_read_authorization_middleware state (some crawler) ≡ ok tt
unfolding service_read_authorization_middleware ensure_service_claims
service_read-crawler = refl

service_authorization_iff_example :
    ((service_read_authorization_middleware state (some crawler) ≡ ok tt)
      ↔ IsReader none crawler × IsIntrospector state crawler)
    × ((service_integration_authorization_middleware state (some crawler) ≡ ok tt)
        ↔ IsReader (some "admin-backend") crawler × IsIntrospector state crawler)
service_authorization_iff_example = service_authorization_iff state crawler
