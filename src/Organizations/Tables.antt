-- ===== src/Organizations/Tables.antt =====
-- The rows that the organization statements read and write. Times are Unix seconds; NOW() is an
-- argument of each transaction.
use keylo.Base.Results.{Result, ok, err}
use keylo.Base.{ℕ, String, Bool, true, false, ◌&&◌, ◌||◌, Option, some, List, ◌==◌, ltb, not}
use keylo.Session.Tables.{RefreshSession, is_none, coalesce, same_text}

-- organizations
pub record Organization : Type 0 where
  pub id : String
  pub slug : String
  pub name : String
  pub kind : String
  pub status : String
  pub created_at : ℕ
  pub updated_at : ℕ

-- principals
pub record Principal : Type 0 where
  pub id : String
  pub principal_type : String
  pub subject : String
  pub ref_id : String
  pub display_name : String
  pub active : Bool
  pub updated_at : ℕ

-- The columns of users that these statements read.
pub record User : Type 0 where
  pub id : String
  pub active : Bool
  pub user_class : String

-- organization_memberships
pub record Membership : Type 0 where
  pub organization_id : String
  pub principal_id : String
  pub status : String
  pub joined_at : ℕ
  pub invited_by : Option String
  pub management_role : String
  pub updated_at : ℕ

-- The columns of oidc_authorization_codes that these statements read.
pub record AuthorizationCode : Type 0 where
  pub organization_id : Option String
  pub user_id : String
  pub consumed_at : Option ℕ

pub record Db : Type 0 where
  pub organizations : List Organization
  pub principals : List Principal
  pub users : List User
  pub organization_memberships : List Membership
  pub refresh_sessions : List RefreshSession
  pub oidc_authorization_codes : List AuthorizationCode

-- What a transaction fails with: `anyhow::bail!` of a text, or a UNIQUE constraint.
pub data Failure : Type 0 where
  bail : String → Failure
  constraint_violation : Failure

-- `if !test { bail!(text) }`
abbrev pub ensure : Bool → String → Result Unit Failure
ensure true text = ok tt
ensure false text = err (bail text)

abbrev pub is_membership : String → String → Membership → Bool
is_membership organization_id principal_id m =
    m.organization_id == organization_id && m.principal_id == principal_id

-- matches!(class, "internal_employee" | "external_customer")
abbrev pub is_known_class : String → Bool
is_known_class c = c == "internal_employee" || c == "external_customer"

-- Customers belong to customer organizations only.
abbrev pub kind_fits : Organization → String → Bool
kind_fits organization user_class =
    not (user_class == "external_customer" && not (organization.kind == "customer"))

-- SET revoked_at = NOW(), revoke_reason = COALESCE(revoke_reason, reason)
abbrev pub end_session : ℕ → String → RefreshSession → RefreshSession
end_session now reason s = record s {
  revoked_at = some now;
  revoke_reason = coalesce s.revoke_reason (some reason);
}

-- revoked_at IS NULL AND expires_at > NOW()
abbrev pub is_live : ℕ → RefreshSession → Bool
is_live now s = is_none s.revoked_at && ltb now s.expires_at

abbrev pub in_organization : String → RefreshSession → Bool
in_organization organization_id s = same_text s.organization_id (some organization_id)
