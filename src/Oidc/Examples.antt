-- ===== src/Oidc/Examples.antt =====
-- A client of the platform that asks for two scopes, and a code that it exchanges.
use keylo.Base.{
  ◌≤◌, ◌+◌, count, false, String, true, none, some, List, [], ◌∷◌, ◌≡◌, ◌↔◌, refl, arith,
}
use keylo.Base.Results.{ok}
use keylo.Oidc.Requests.{
  OidcClient, OidcAuthorizeRequest, split_ascii_whitespace, validate_pkce_challenge,
  validate_authorization_request, verify_pkce_s256,
}
use keylo.Oidc.Requests.Meaning.{IsAdmissible, validate_authorization_request_iff}
use keylo.Oidc.Codes.{
  OidcAuthorizationCode, Db, new_row, create_authorization_code, consume_authorization_code,
  consume_authorization_code_for_client,
}
use keylo.Oidc.Codes.OneTime.{
  Op, create, consume, consume_for_client, perform, exchanges, creates, is_unused,
  exchanges-le-created,
}
use keylo.Oidc.Codes.Meaning.{IsExchange, consume-IsExchange, create-consume}

abbrev digest : String
digest = "E9Melhoa2OwvFrEMTJguCHaoeK1t8URWbuGJSstw-cM"

abbrev pkce_verifier : String
pkce_verifier = "dBjftJeZ4CVP-mB92K27uhbUJU1p1r_wW1gFWFOEjXk"

abbrev client : OidcClient
client = record {
  id = "c1";
  client_id = "portal";
  name = "Portal";
  description = none;
  client_type = "public";
  redirect_uris = "https://portal.example/callback" ∷ [];
  grant_types = "authorization_code" ∷ [];
  scopes = "openid" ∷ "profile" ∷ [];
  active = true;
  scope_kind = "platform";
  organization_id = none;
  created_at = 1;
  updated_at = 1;
}

abbrev request : OidcAuthorizeRequest
request = record {
  response_type = "code";
  client_id = "portal";
  redirect_uri = "https://portal.example/callback";
  scope = " openid  profile";
  state = some "x";
  nonce = some "n";
  code_challenge = digest;
  code_challenge_method = "S256";
}

split-request : split_ascii_whitespace request.scope ≡ "openid" ∷ "profile" ∷ []
unfolding split_ascii_whitespace
split-request = refl

validate-request : validate_authorization_request client request ≡ ok ("openid" ∷ "profile" ∷ [])
unfolding validate_authorization_request validate_pkce_challenge split_ascii_whitespace
validate-request = refl

validate_authorization_request_iff_example :
    (validate_authorization_request client request ≡ ok ("openid" ∷ "profile" ∷ []))
    ↔ IsAdmissible client request ("openid" ∷ "profile" ∷ [])
validate_authorization_request_iff_example =
    validate_authorization_request_iff client request ("openid" ∷ "profile" ∷ [])

-- A digest that knows one pkce_verifier.
verify-pkce_verifier : verify_pkce_s256 (λ v. digest) pkce_verifier digest ≡ true
unfolding verify_pkce_s256
verify-pkce_verifier = refl

verify-short : verify_pkce_s256 (λ v. digest) "short" digest ≡ false
unfolding verify_pkce_s256
verify-short = refl

abbrev plain : String → String
plain code = code

abbrev authorization : OidcAuthorizationCode
authorization = record {
  client_id = "portal";
  organization_id = none;
  user_id = "u1";
  redirect_uri = "https://portal.example/callback";
  scopes = "openid" ∷ [];
  nonce = some "n";
  code_challenge = digest;
  expires_at = 100;
}

abbrev start : Db
start = record {
  organizations = [];
  principals =
      record {
        id = "p1";
        principal_type = "user";
        subject = "user:u1";
        ref_id = "u1";
        display_name = "Ann";
        active = true;
        updated_at = 1;
      }
      ∷ [];
  users = record { id = "u1"; active = true; user_class = "external_customer" } ∷ [];
  organization_memberships = [];
  oidc_clients = client ∷ [];
  oidc_authorization_codes = [];
}

abbrev created : Db
created = record start { oidc_authorization_codes = new_row "a1" "secret" authorization ∷ [] }

create-start : create_authorization_code plain "a1" "secret" authorization start ≡ ok created
unfolding create_authorization_code
create-start = refl

create-consume_example :
    (consume_authorization_code_for_client plain 20 "secret" "portal" none created).0
    ≡ some authorization
create-consume_example =
    create-consume plain "a1" "secret" 20 authorization start created create-start (omega arith)

consume-created :
    (consume_authorization_code_for_client plain 20 "secret" "portal" none created).0
    ≡ some authorization
unfolding consume_authorization_code_for_client
consume-created = refl

consume-IsExchange_example : IsExchange plain 20 "secret" "portal" none created authorization
consume-IsExchange_example =
    consume-IsExchange plain 20 "secret" "portal" none created authorization consume-created

-- The code is presented by a wrong client, then by the right one, then again.
abbrev story : List Op
story =
    create "a1" "secret" authorization
    ∷ consume_for_client 19 "secret" "other" none
    ∷ consume_for_client 20 "secret" "portal" none
    ∷ consume_for_client 21 "secret" "portal" none
    ∷ consume 22 "secret"
    ∷ []

exchanges-story : exchanges plain "secret" story start ≡ 1
unfolding exchanges perform create_authorization_code consume_authorization_code
    consume_authorization_code_for_client
exchanges-story = refl

exchanges-le-created_example :
    exchanges plain "secret" story start
    ≤ count (creates plain "secret") story
      + count (is_unused plain "secret") start.oidc_authorization_codes
exchanges-le-created_example = exchanges-le-created plain "secret" story start
