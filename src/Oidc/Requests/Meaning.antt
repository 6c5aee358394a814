-- ===== src/Oidc/Requests/Meaning.antt =====
-- Which authorization requests pass, and that PKCE lets in whoever made the challenge.
use keylo.Base.{
  ◌≤◌, String, true, false, not, Option, none, some, List, ◌==◌, any, ◌≡◌, ◌↔◌, refl, arith, eq_iff,
  eq_refl, sym, inl, inr, Bool-cases,
}
use keylo.Base.Results.{Result, ok, err}
use keylo.Base.Text.{str_len, all_chars}
use keylo.Access.Checks.{is_missing}
use keylo.Access.Checks.Meaning.{Present, is_missing-Present}
use keylo.Oidc.Requests.{
  OidcClient, OidcAuthorizeRequest, split_ascii_whitespace, is_unreserved, validate_pkce_value,
  validate_pkce_challenge, is_long, validate_scopes, after_pkce, validate_authorization_request,
  verify_pkce_s256,
}

abbrev pub IsPkceValue : String → Type 0
IsPkceValue value =
    (43 ≤ str_len value) × (str_len value ≤ 128) × (all_chars is_unreserved value ≡ true)

abbrev pub IsShort : Option String → Type 0
IsShort none = Unit
IsShort (some state) = str_len state ≤ 1024

pub record IsAdmissible (client : OidcClient) (request : OidcAuthorizeRequest)
    (scopes : List String) : Type 0 where
  pub active : client.active ≡ true
  pub same_client : client.client_id ≡ request.client_id
  pub response_type : request.response_type ≡ "code"
  pub grant : any (λ grant. grant == "authorization_code") client.grant_types ≡ true
  pub redirect : any (λ uri. uri == request.redirect_uri) client.redirect_uris ≡ true
  pub nonce : Present request.nonce
  pub state : IsShort request.state
  pub method : request.code_challenge_method ≡ "S256"
  pub challenge : IsPkceValue request.code_challenge
  pub asked : scopes ≡ split_ascii_whitespace request.scope
  pub openid : any (λ scope. scope == "openid") scopes ≡ true
  pub registered :
      any (λ scope. not (any (λ allowed. allowed == scope) client.scopes)) scopes ≡ false

validate_pkce_value_iff :
    (label value : String) → (validate_pkce_value label value ≡ ok tt) ↔ IsPkceValue value
validate_pkce_value_iff label value = (
  λ fine. (ground (arith, fine), ground (arith, fine), ground (arith, fine)),
  λ (low, high, plain). ground (arith, low, high, plain),
)

validate_pkce_challenge_iff :
    (challenge method : String)
    → (validate_pkce_challenge challenge method ≡ ok tt) ↔ (method ≡ "S256") × IsPkceValue challenge
unfolding validate_pkce_challenge
validate_pkce_challenge_iff challenge method = elim (Bool-cases (method == "S256")) [
  | inr other ↦ rw other (λ refused. cc, λ (same, _). cc (other, (eq_iff method "S256").1 same))
  | inl same ↦ rw same (
    λ fine. (
      (eq_iff method "S256").0 same,
      (validate_pkce_value_iff "code_challenge" challenge).0 fine,
    ),
    λ (_, plain). (validate_pkce_value_iff "code_challenge" challenge).1 plain,
  )
]

after_pkce-eq-ok :
    (client : OidcClient) (request : OidcAuthorizeRequest) (scopes : List String)
    (checked : Result Unit String)
    → after_pkce client request checked ≡ ok scopes
    → (checked ≡ ok tt)
      × (validate_scopes client (split_ascii_whitespace request.scope) ≡ ok scopes)
after_pkce-eq-ok client request scopes (ok tt) fine = (refl, fine)
after_pkce-eq-ok client request scopes (err e) fine = cc

is_long-IsShort : (state : Option String) → is_long state ≡ false → IsShort state
is_long-IsShort none short = tt
is_long-IsShort (some state) short = ground (arith, short)

IsShort-is_long : (state : Option String) → IsShort state → is_long state ≡ false
IsShort-is_long none short = refl
IsShort-is_long (some state) short = ground (arith, short)

validate_scopes-asked :
    (client : OidcClient) (asked scopes : List String)
    → validate_scopes client asked ≡ ok scopes
    → (scopes ≡ asked)
      × (any (λ scope. scope == "openid") asked ≡ true)
      × (any (λ scope. not (any (λ allowed. allowed == scope) client.scopes)) asked ≡ false)
validate_scopes-asked client asked scopes fine =
    (ground (arith, fine), ground (arith, fine), ground (arith, fine))

-- The checks before PKCE.
validate-fields :
    (client : OidcClient) (request : OidcAuthorizeRequest) (scopes : List String)
    → validate_authorization_request client request ≡ ok scopes
    → (client.active ≡ true)
      × (client.client_id == request.client_id ≡ true)
      × (request.response_type == "code" ≡ true)
      × (any (λ grant. grant == "authorization_code") client.grant_types ≡ true)
      × (any (λ uri. uri == request.redirect_uri) client.redirect_uris ≡ true)
      × (is_missing request.nonce ≡ false)
      × (is_long request.state ≡ false)
      × (after_pkce client request
            (validate_pkce_challenge request.code_challenge request.code_challenge_method)
          ≡ ok scopes)
unfolding validate_authorization_request
validate-fields client request scopes fine = (
  ground (arith, fine),
  ground (arith, fine),
  ground (arith, fine),
  ground (arith, fine),
  ground (arith, fine),
  ground (arith, fine),
  ground (arith, fine),
  ground (arith, fine),
)

validate-IsAdmissible :
    (client : OidcClient) (request : OidcAuthorizeRequest) (scopes : List String)
    → validate_authorization_request client request ≡ ok scopes
    → IsAdmissible client request scopes
validate-IsAdmissible client request scopes fine =
    let (active, same, code, grant, redirect, nonce, short, rest) =
      validate-fields client request scopes fine in
    let (checked, chosen) = after_pkce-eq-ok client request scopes _ rest in
    let (method, challenge) =
      (validate_pkce_challenge_iff request.code_challenge request.code_challenge_method).0
        checked in
    let (asked, openid, registered) = validate_scopes-asked client _ scopes chosen in
    record {
      active = active;
      same_client = (eq_iff client.client_id request.client_id).0 same;
      response_type = (eq_iff request.response_type "code").0 code;
      grant = grant;
      redirect = redirect;
      nonce = is_missing-Present request.nonce nonce;
      state = is_long-IsShort request.state short;
      method = method;
      challenge = challenge;
      asked = asked;
      openid = rw asked openid;
      registered = rw asked registered;
    }

Present-is_missing : (o : Option String) → Present o → is_missing o ≡ false
Present-is_missing o (value, here, full) = rw here full

-- A request is admitted, with some scopes, exactly when the client is active and the one named, the
-- grant is an authorization code that the client may use, the redirect address is registered, there
-- is a nonce, the state has at most 1024 bytes, the challenge is a PKCE value for S256, and the
-- scopes are the words that were asked for, openid among them and all registered.
pub validate_authorization_request_iff :
    (client : OidcClient) (request : OidcAuthorizeRequest) (scopes : List String)
    → (validate_authorization_request client request ≡ ok scopes)
      ↔ IsAdmissible client request scopes
unfolding validate_authorization_request
validate_authorization_request_iff client request scopes = (
  validate-IsAdmissible client request scopes,
  λ a.
      rw
        (
          a.active,
          (eq_iff client.client_id request.client_id).1 a.same_client,
          (eq_iff request.response_type "code").1 a.response_type,
          a.grant,
          a.redirect,
          Present-is_missing request.nonce a.nonce,
          IsShort-is_long request.state a.state,
          (validate_pkce_challenge_iff request.code_challenge request.code_challenge_method).1
              (a.method, a.challenge),
          sym a.asked,
          a.openid,
          a.registered,
        )
        refl,
)

-- Whoever sends a verifier of 43 to 128 unreserved characters passes against its own S256 challenge,
-- which may be sent when the digest of a verifier is such a text too; and what passes against that
-- challenge has the same digest.
pub verify-challenge :
    (s256 : String → String) (verifier other : String)
    → ((v : String) → IsPkceValue (s256 v))
    → IsPkceValue verifier
    → (validate_pkce_challenge (s256 verifier) "S256" ≡ ok tt)
      × (verify_pkce_s256 s256 verifier (s256 verifier) ≡ true)
      × ((verify_pkce_s256 s256 other (s256 verifier) ≡ true)
          ↔ IsPkceValue other × (s256 other ≡ s256 verifier))
unfolding verify_pkce_s256
verify-challenge s256 verifier other digests plain =
    let value = (validate_pkce_value_iff "code_verifier" verifier).1 plain in
    (
      (validate_pkce_challenge_iff (s256 verifier) "S256").1 (refl, digests verifier),
      rw value (eq_refl (s256 verifier)),
      (
        λ passed. (
          (validate_pkce_value_iff "code_verifier" other).0 (ground (arith, passed)),
          (eq_iff (s256 other) (s256 verifier)).0 (ground (arith, passed)),
        ),
        λ (plain', same).
            rw ((validate_pkce_value_iff "code_verifier" other).1 plain')
              ((eq_iff (s256 other) (s256 verifier)).1 same),
      ),
    )
