-- ===== src/Errors/Responses.antt =====
-- What a client learns from an error response.
use keylo.Base.{ℕ, String, ◌≡◌, ◌↔◌, refl, ap, sym, ◌∙◌, eqb, if◌then◌else◌}
use keylo.Errors.{
  AuthError, into_response, wrong_credentials, missing_credentials, token_creation, invalid_token,
  expired_token, database_error, not_found, unauthorized, forbidden, insufficient_scope,
  insufficient_audience, insufficient_role, invalid_audience, token_type_invalid,
  password_change_required, permission_not_bound, role_not_bound, service_client_not_authorized,
  too_many_requests, conflict, invalid_request, internal_server_error,
}

-- The diagnostic text of a database or internal error is dropped.
abbrev pub redact : AuthError → AuthError
redact (database_error _) = database_error ""
redact (internal_server_error _) = internal_server_error ""
redact e = e

-- What an error is, without any text.
abbrev pub kind : AuthError → AuthError
kind (database_error _) = database_error ""
kind (conflict _) = conflict ""
kind (invalid_request _) = invalid_request ""
kind (internal_server_error _) = internal_server_error ""
kind e = e

-- The kind of error that a code stands for, with the text of its message.
abbrev of_code : ℕ → String → AuthError
of_code code message =
    if eqb code 1001
    then wrong_credentials
    else if eqb code 1002
    then missing_credentials
    else if eqb code 1003
    then token_creation
    else if eqb code 1004
    then invalid_token
    else if eqb code 1005
    then expired_token
    else if eqb code 1006
    then database_error ""
    else if eqb code 1007
    then not_found
    else if eqb code 1008
    then unauthorized
    else if eqb code 1009
    then forbidden
    else if eqb code 1012
    then insufficient_scope
    else if eqb code 1013
    then insufficient_audience
    else if eqb code 1014
    then insufficient_role
    else if eqb code 1016
    then invalid_audience
    else if eqb code 1017
    then token_type_invalid
    else if eqb code 1022
    then password_change_required
    else if eqb code 1018
    then permission_not_bound
    else if eqb code 1019
    then role_not_bound
    else if eqb code 1015
    then service_client_not_authorized
    else if eqb code 1011
    then too_many_requests
    else if eqb code 1020
    then conflict message
    else if eqb code 1021
    then invalid_request message
    else internal_server_error ""

code_of : (e : AuthError) → of_code (into_response e).code "" ≡ kind e
unfolding into_response
code_of wrong_credentials = refl
code_of _ = refl

code-kind : (e : AuthError) → (into_response (kind e)).code ≡ (into_response e).code
unfolding into_response
code-kind wrong_credentials = refl
code-kind _ = refl

response_of : (e : AuthError) → of_code (into_response e).code (into_response e).message ≡ redact e
unfolding into_response
response_of wrong_credentials = refl
response_of _ = refl

into_response-redact : (e : AuthError) → into_response (redact e) ≡ into_response e
unfolding into_response
into_response-redact wrong_credentials = refl
into_response-redact _ = refl

-- The `code` alone tells all kinds of error apart: two errors have the same code exactly when they
-- are the same error but for their texts. The whole responses are the same exactly when the errors
-- are the same apart from the text of a database error or of an internal error, which no response
-- shows.
pub into_response_iff :
    (a b : AuthError)
    → (((into_response a).code ≡ (into_response b).code) ↔ (kind a ≡ kind b))
      × ((into_response a ≡ into_response b) ↔ (redact a ≡ redact b))
into_response_iff a b = (
  (
    λ same. sym (code_of a) ∙ ap (λ c. of_code c "") same ∙ code_of b,
    λ same. sym (code-kind a) ∙ ap (λ e. (into_response e).code) same ∙ code-kind b,
  ),
  (
    λ same. sym (response_of a) ∙ ap (λ r. of_code r.code r.message) same ∙ response_of b,
    λ same. sym (into_response-redact a) ∙ ap into_response same ∙ into_response-redact b,
  ),
)
