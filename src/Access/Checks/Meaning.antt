-- ===== src/Access/Checks/Meaning.antt =====
-- What the checks of claims demand.
use keylo.Base.{String, true, false, Option, none, some, ◌≡◌, ◌↔◌, refl, arith, eq_iff}
use keylo.Base.Text.{is_empty}
use keylo.Errors.{token_type_invalid}
use keylo.Access.Claims.{Claims, has_role, has_scope, has_audience}
use keylo.Access.Checks.{
  meets, is_text, is_missing, ensure_access_claims, ensure_customer_support_access_claims,
}

-- Access claims are accepted exactly when the token is an access token and each requirement that
-- the caller states is met.
pub ensure_access_claims_iff :
    (role scope audience : Option String) (claims : Claims)
    → (ensure_access_claims role scope audience claims ≡ none)
      ↔ (claims.token_type ≡ "access")
        × (meets role (λ r. has_role r claims) ≡ true)
        × (meets scope (λ s. has_scope s claims) ≡ true)
        × (meets audience (λ a. has_audience a claims) ≡ true)
unfolding ensure_access_claims
ensure_access_claims_iff role scope audience claims = (
  λ h. (
    (eq_iff claims.token_type "access").0 (ground (arith, h)),
    ground (arith, h),
    ground (arith, h),
    ground (arith, h),
  ),
  λ (access, r, s, a). rw ((eq_iff claims.token_type "access").1 access, r, s, a) refl,
)

-- A present value: some text that is not empty.
abbrev pub Present : Option String → Type 0
Present o = (value : String) × (o ≡ some value) × (is_empty value ≡ false)

pub is_missing-Present : (o : Option String) → is_missing o ≡ false → Present o
is_missing-Present none h = cc
is_missing-Present (some value) h = (value, refl, h)

pub is_text-eq :
    (expected : String) (o : Option String) → is_text expected o ≡ true → o ≡ some expected
is_text-eq expected none h = cc
is_text-eq expected (some value) h = ground (arith, eq_iff value expected)

pub support_token_type :
    (claims : Claims)
    → ensure_customer_support_access_claims claims ≡ none
    → claims.token_type ≡ "customer_support_access"
unfolding ensure_customer_support_access_claims
support_token_type claims h =
    (eq_iff claims.token_type "customer_support_access").0 (ground (arith, h))

support_not_access :
    (claims : Claims) (role scope audience : Option String)
    → claims.token_type ≡ "customer_support_access"
    → ensure_access_claims role scope audience claims ≡ some token_type_invalid
unfolding ensure_access_claims
support_not_access claims role scope audience h = rw h refl

-- Claims that the customer-support check accepts name a person, a principal, an organization and a
-- grant, carry the support role, and are refused by every check of ordinary access.
pub customer_support_exclusive :
    (claims : Claims) (role scope audience : Option String)
    → ensure_customer_support_access_claims claims ≡ none
    → (claims.principal_type ≡ some "user")
      × Present claims.uid
      × Present claims.principal_id
      × Present claims.organization_id
      × Present claims.customer_support_grant_id
      × (has_role "customer_support" claims ≡ true)
      × (ensure_access_claims role scope audience claims ≡ some token_type_invalid)
unfolding ensure_customer_support_access_claims
customer_support_exclusive claims role scope audience h = (
  is_text-eq "user" claims.principal_type (ground (arith, h)),
  is_missing-Present claims.uid (ground (arith, h)),
  is_missing-Present claims.principal_id (ground (arith, h)),
  is_missing-Present claims.organization_id (ground (arith, h)),
  is_missing-Present claims.customer_support_grant_id (ground (arith, h)),
  ground (arith, h),
  support_not_access claims role scope audience (support_token_type claims h),
)
