-- ===== src/Errors.antt =====
-- The error type of the handlers and its HTTP response (src/errors.rs).
pub mod Responses
mod Examples
use keylo.Base.{ℕ, String}

pub data AuthError : Type 0 where
  wrong_credentials missing_credentials token_creation invalid_token expired_token : AuthError
  database_error : String → AuthError
  not_found unauthorized forbidden insufficient_scope insufficient_audience : AuthError
  insufficient_role invalid_audience token_type_invalid password_change_required : AuthError
  permission_not_bound role_not_bound service_client_not_authorized too_many_requests : AuthError
  conflict invalid_request internal_server_error : String → AuthError

-- The status, and the body's three fields.
pub record Response : Type 0 where
  pub status : ℕ
  pub code : ℕ
  pub error : String
  pub message : String

abbrev respond : ℕ → ℕ → String → String → Response
respond status code error message = record {
  status = status;
  code = code;
  error = error;
  message = message;
}

unfoldable pub into_response : AuthError → Response
into_response wrong_credentials = respond 401 1001 "wrong_credentials" "Wrong credentials"
into_response missing_credentials = respond 400 1002 "missing_credentials" "Missing credentials"
into_response token_creation = respond 500 1003 "token_creation_error" "Token creation error"
into_response invalid_token = respond 401 1004 "invalid_token" "Invalid token"
into_response expired_token = respond 401 1005 "expired_token" "Token expired"
into_response (database_error message) = respond 500 1006 "database_error" "Database error"
into_response not_found = respond 404 1007 "not_found" "Resource not found"
into_response unauthorized = respond 401 1008 "unauthorized" "Unauthorized"
into_response forbidden = respond 403 1009 "forbidden" "Forbidden"
into_response insufficient_scope = respond 403 1012 "insufficient_scope" "Insufficient scope"
into_response insufficient_audience = respond 403 1013 "invalid_audience" "Insufficient audience"
into_response insufficient_role = respond 403 1014 "insufficient_role" "Insufficient role"
into_response invalid_audience = respond 401 1016 "invalid_audience" "Invalid audience"
into_response token_type_invalid = respond 403 1017 "token_type_invalid" "Token type invalid"
into_response password_change_required =
    respond 403 1022 "password_change_required" "Password change required"
into_response permission_not_bound = respond 404 1018 "permission_not_bound" "Permission not bound"
into_response role_not_bound = respond 404 1019 "role_not_bound" "Role not bound"
into_response service_client_not_authorized =
    respond 403 1015 "service_client_not_authorized" "Service client not authorized"
into_response too_many_requests = respond 429 1011 "too_many_requests" "Too many requests"
into_response (conflict message) = respond 409 1020 "conflict" message
into_response (invalid_request message) = respond 400 1021 "invalid_request" message
into_response (internal_server_error message) =
    respond 500 1010 "internal_server_error" "Internal server error"
