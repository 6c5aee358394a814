-- ===== src/Oidc/Requests.antt =====
-- `validate_authorization_request`, `validate_pkce_challenge` and `verify_pkce_s256` of
-- src/models/oidc.rs. SHA-256 and base64url are a parameter, from a verifier to its challenge.
pub mod Meaning
use Prim.Native.Char.{Char, code}
use Prim.Native.String.{[], ◌∷◌}
use keylo.Base.{
  ℕ, String, Bool, true, false, not, ◌&&◌, ◌||◌, Option, none, some, List, [], ◌∷◌, ◌==◌, any, eqb,
  leb, ltb, if◌then◌else◌,
}
use keylo.Base.Results.{Result, ok, err}
use keylo.Base.Text.{
  ◌⧺◌, str_len, all_chars, is_ascii_digit, is_ascii_uppercase, is_ascii_lowercase,
}
use keylo.Access.Checks.{is_missing}

pub record OidcClient : Type 0 where
  pub id : String
  pub client_id : String
  pub name : String
  pub description : Option String
  pub client_type : String
  pub redirect_uris : List String
  pub grant_types : List String
  pub scopes : List String
  pub active : Bool
  pub scope_kind : String
  pub organization_id : Option String
  pub created_at : ℕ
  pub updated_at : ℕ

pub record OidcAuthorizeRequest : Type 0 where
  pub response_type : String
  pub client_id : String
  pub redirect_uri : String
  pub scope : String
  pub state : Option String
  pub nonce : Option String
  pub code_challenge : String
  pub code_challenge_method : String

-- `u8::is_ascii_whitespace`
abbrev pub is_ascii_whitespace : ℕ → Bool
is_ascii_whitespace c = eqb c 32 || eqb c 9 || eqb c 10 || eqb c 12 || eqb c 13

abbrev starts_word : String → Bool
starts_word [] = false
starts_word (c ∷ s) = not (is_ascii_whitespace (code c))

-- A character of a word, in front of the words of the text that follows it.
abbrev extend_word : Char → Bool → List String → List String
extend_word c true (word ∷ words) = (c ∷ word) ∷ words
extend_word c _ words = (c ∷ []) ∷ words

-- `str::split_ascii_whitespace`
unfoldable pub split_ascii_whitespace : String → List String
split_ascii_whitespace [] = []
split_ascii_whitespace (c ∷ s) =
    let rest = split_ascii_whitespace s in
    if is_ascii_whitespace (code c) then rest else extend_word c (starts_word s) rest

-- `is_ascii_alphanumeric`, '-', '.', '_' or '~'
abbrev pub is_unreserved : ℕ → Bool
is_unreserved c =
    is_ascii_digit c
    || is_ascii_uppercase c
    || is_ascii_lowercase c
    || eqb c b'-'
    || eqb c b'.'
    || eqb c b'_'
    || eqb c b'~'

abbrev pub validate_pkce_value : String → String → Result Unit String
validate_pkce_value label value =
    if not (leb 43 (str_len value) && leb (str_len value) 128)
      || not (all_chars is_unreserved value)
    then err (label ⧺ " must be 43-128 PKCE unreserved characters")
    else ok tt

unfoldable pub validate_pkce_challenge : String → String → Result Unit String
validate_pkce_challenge challenge method =
    if not (method == "S256")
    then err "only S256 code_challenge_method is supported"
    else validate_pkce_value "code_challenge" challenge

abbrev pub is_err : Result Unit String → Bool
is_err (ok _) = false
is_err (err e) = true

-- `state.len() > 1024`
abbrev pub is_long : Option String → Bool
is_long none = false
is_long (some state) = ltb 1024 (str_len state)

-- The scopes that are asked for, once everything else of the request is right.
abbrev pub validate_scopes : OidcClient → List String → Result (List String) String
validate_scopes client scopes =
    if not (any (λ scope. scope == "openid") scopes)
    then err "scope must include openid"
    else if any (λ scope. not (any (λ allowed. allowed == scope) client.scopes)) scopes
    then err "requested scope is not registered for this client"
    else ok scopes

abbrev pub after_pkce :
    OidcClient → OidcAuthorizeRequest → Result Unit String → Result (List String) String
after_pkce client request (err e) = err e
after_pkce client request (ok _) = validate_scopes client (split_ascii_whitespace request.scope)

unfoldable pub validate_authorization_request :
    OidcClient → OidcAuthorizeRequest → Result (List String) String
validate_authorization_request client request =
    if not client.active || not (client.client_id == request.client_id)
    then err "OIDC client is not active"
    else if not (request.response_type == "code")
        || not (any (λ grant. grant == "authorization_code") client.grant_types)
    then err "only response_type=code is supported"
    else if not (any (λ uri. uri == request.redirect_uri) client.redirect_uris)
    then err "redirect_uri must exactly match a registered URI"
    else if is_missing request.nonce
    then err "nonce is required for OIDC authorization requests"
    else if is_long request.state
    then err "state must not exceed 1024 characters"
    else after_pkce client request
        (validate_pkce_challenge request.code_challenge request.code_challenge_method)

-- `URL_SAFE_NO_PAD.encode(Sha256::digest(…))` is `s256`.
unfoldable pub verify_pkce_s256 : (String → String) → String → String → Bool
verify_pkce_s256 s256 verifier challenge =
    if is_err (validate_pkce_value "code_verifier" verifier)
    then false
    else s256 verifier == challenge
