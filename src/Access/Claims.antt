-- ===== src/Access/Claims.antt =====
-- `Claims` (src/models/jwt.rs) and `ServiceClaims` (src/models/service.rs).
use keylo.Base.{ℕ, String, Bool, ◌||◌, Option, List, ◌==◌, any}

pub record Claims : Type 0 where
  pub sub : String
  pub uid : Option String
  pub principal_id : Option String
  pub principal_type : Option String
  pub organization_id : Option String
  pub customer_support_grant_id : Option String
  pub iss : String
  pub aud : String
  pub scope : List String
  pub role : List String
  pub token_type : String
  pub password_change_required : Bool
  pub exp : ℕ
  pub iat : ℕ
  pub jti : String

abbrev pub has_scope : String → Claims → Bool
has_scope scope claims = any (λ value. value == scope) claims.scope

abbrev pub has_audience : String → Claims → Bool
has_audience audience claims = claims.aud == audience || claims.aud == "*"

abbrev pub has_role : String → Claims → Bool
has_role role claims = any (λ value. value == role) claims.role

pub record ServiceClaims : Type 0 where
  pub sub : String
  pub principal_id : Option String
  pub principal_type : Option String
  pub organization_id : Option String
  pub iss : String
  pub aud : String
  pub scope : List String
  pub role : Option String
  pub token_type : String
  pub exp : ℕ
  pub iat : ℕ
  pub jti : String
