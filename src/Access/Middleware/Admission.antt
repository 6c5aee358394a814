-- ===== src/Access/Middleware/Admission.antt =====
-- Which requests the middleware lets through.
use mathlib.Core.Path.{subst}
use keylo.Base.{
  String, true, false, Option, none, some, ◌≡◌, ◌↔◌, ◌⊎◌, inl, inr, refl, arith, eq_iff, Bool-cases,
}
use keylo.Base.Results.{ok, err, bind-eq-ok, map_err, map_err-eq-ok, ok_or-eq-ok}
use keylo.Access.Directory.{Directory}
use keylo.Access.Middleware.Liveness.{IsOwnerActive, live_token_iff}
use keylo.Errors.{AuthError, token_type_invalid, unauthorized}
use keylo.Access.Claims.{Claims}
use keylo.Access.Checks.{
  password_change_allowed_path, ensure_password_change_complete,
  ensure_customer_support_access_claims,
}
use keylo.Access.Checks.Meaning.{support_token_type}
use keylo.Access.Middleware.{
  denied, AppState, passes, bearer_token, live_token, password_gate, access_type, auth_middleware,
  customer_support_auth_middleware,
}

pub passes-eq-ok : (o : Option AuthError) → passes o ≡ ok tt → o ≡ none
passes-eq-ok none h = refl
passes-eq-ok (some e) h = cc

-- With a database, it says now that the token is not blacklisted and that the token's principal, or
-- the person that it names instead, is active. Without a database nothing is asked.
abbrev pub IsLive : Option Directory → String → Claims → Type 0
IsLive none token claims = Unit
IsLive (some db) token claims =
    (db.is_token_blacklisted token ≡ ok false) × IsOwnerActive db claims claims.principal_id

live_token-IsLive :
    (db : Option Directory) (token : String) (claims : Claims)
    → (live_token db token claims ≡ ok tt) ↔ IsLive db token claims
unfolding live_token
live_token-IsLive none token claims = (λ h. tt, λ h. refl)
live_token-IsLive (some db) token claims = live_token_iff db token claims

module _ (s : AppState) where
  -- A request with an ordinary access token that passes every check, live at this moment.
  pub record IsAuthenticated (auth : Option String) (path : String) (claims : Claims) : Type 0 where
    pub token : String
    pub presented : auth ≡ some token
    pub decoded : s.decode_token token ≡ ok claims
    pub is_access : claims.token_type ≡ "access"
    pub live : IsLive s.db token claims
    pub password_complete :
        (claims.password_change_required ≡ false) ⊎ (password_change_allowed_path path ≡ true)

  password_gate-eq-ok :
      (path : String) (claims : Claims)
      → password_gate path claims ≡ ok tt
      → (claims.password_change_required ≡ false) ⊎ (password_change_allowed_path path ≡ true)
  unfolding ensure_password_change_complete
  password_gate-eq-ok path claims h = elim (Bool-cases (password_change_allowed_path path)) [
    | inl allowed ↦ inr allowed
    | inr other ↦ elim (Bool-cases claims.password_change_required) [
      | inl required ↦ ground (arith, h, other, required)
      | inr complete ↦ inl complete
    ]
  ]

  access_type-eq-ok : (claims : Claims) → access_type claims ≡ ok tt → claims.token_type ≡ "access"
  access_type-eq-ok claims h = (eq_iff claims.token_type "access").0 (ground (arith, h))

  auth-IsAuthenticated :
      (auth : Option String) (path : String) (claims : Claims)
      → auth_middleware s auth path ≡ ok claims
      → IsAuthenticated auth path claims
  unfolding auth_middleware
  auth-IsAuthenticated auth path claims h =
      let (token, presented, h₁) = bind-eq-ok (bearer_token auth) _ h in
      let (c, decoded, h₂) = bind-eq-ok (map_err denied (s.decode_token token)) _ h₁ in
      let (_, is_access, h₃) = bind-eq-ok (access_type c) _ h₂ in
      let (_, live, h₄) = bind-eq-ok (live_token s.db token c) _ h₃ in
      let (_, password, same) = bind-eq-ok (password_gate path c) _ h₄ in
      let eq : c ≡ claims = ground (arith, same) in
      let request : IsAuthenticated auth path c = record {
        token = token;
        presented = ok_or-eq-ok (denied unauthorized) auth presented;
        decoded = map_err-eq-ok denied (s.decode_token token) decoded;
        is_access = access_type-eq-ok c is_access;
        live = (live_token-IsLive s.db token c).0 live;
        password_complete = password_gate-eq-ok path c password;
      } in
      subst (IsAuthenticated auth path) eq request

  -- A request passes the middleware of ordinary access, with these claims, exactly when it presents
  -- a bearer token that decodes to them, the token is an access token, and a token for changing a
  -- password only goes to one of the paths meant for that; and, if the process has a database, the
  -- database says that the token is not blacklisted and knows as active its principal, or, for a
  -- token of a person without a principal id, the person, if it names one. Without a database nothing
  -- else is asked.
  pub auth_middleware_iff :
      (auth : Option String) (path : String) (claims : Claims)
      → (auth_middleware s auth path ≡ ok claims) ↔ IsAuthenticated auth path claims
  unfolding auth_middleware ensure_password_change_complete
  auth_middleware_iff auth path claims = (
    auth-IsAuthenticated auth path claims,
    λ r.
        rw
          (
            r.presented,
            r.decoded,
            (eq_iff claims.token_type "access").1 r.is_access,
            (live_token-IsLive s.db r.token claims).1 r.live,
          )
          (elim r.password_complete [
            | inl complete ↦ ground (arith, complete)
            | inr allowed ↦ ground (arith, allowed)
          ]),
  )

  -- A request that the customer-support middleware lets through is refused by the middleware of
  -- ordinary access on every path: a support token never becomes an access token.
  pub support_token_refused :
      (auth : Option String) (path : String) (claims : Claims)
      → customer_support_auth_middleware s auth ≡ ok claims
      → auth_middleware s auth path ≡ err (denied token_type_invalid)
  unfolding customer_support_auth_middleware auth_middleware
  support_token_refused auth path claims h =
      let (token, presented, h₁) = bind-eq-ok (bearer_token auth) _ h in
      let (c, decoded, h₂) = bind-eq-ok (map_err denied (s.decode_token token)) _ h₁ in
      let (_, checked, _) = bind-eq-ok (passes (ensure_customer_support_access_claims c)) _ h₂ in
      let support = support_token_type c (passes-eq-ok _ checked) in
      rw
        (
          ok_or-eq-ok (denied unauthorized) auth presented,
          map_err-eq-ok denied (s.decode_token token) decoded,
          support,
        )
        refl
