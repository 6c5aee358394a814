-- ===== src/Oidc/Codes.antt =====
-- `create_authorization_code`, `consume_authorization_code` and
-- `consume_authorization_code_for_client` of src/db/oidc.rs: one statement each. The digest of a
-- code is a parameter, its identifier an argument.
pub mod OneTime
pub mod Context
pub mod Meaning
use keylo.Base.{
  ℕ, String, Bool, ◌&&◌, ◌||◌, Option, none, some, List, [], ◌∷◌, ◌++◌, ◌==◌, any, find, ltb,
  update_where, if◌then◌else◌,
}
use keylo.Base.Results.{Result, ok, err}
use keylo.Session.Tables.{is_none, same_text}
use keylo.Organizations.Tables.{
  Organization, Principal, User, Membership, Failure, bail, constraint_violation, is_membership,
}
use keylo.Oidc.Requests.{OidcClient}

-- oidc_authorization_codes
pub record CodeRow : Type 0 where
  pub id : String
  pub code_hash : String
  pub client_id : String
  pub organization_id : Option String
  pub user_id : String
  pub redirect_uri : String
  pub scopes : List String
  pub nonce : Option String
  pub code_challenge : String
  pub expires_at : ℕ
  pub consumed_at : Option ℕ

pub record OidcAuthorizationCode : Type 0 where
  pub client_id : String
  pub organization_id : Option String
  pub user_id : String
  pub redirect_uri : String
  pub scopes : List String
  pub nonce : Option String
  pub code_challenge : String
  pub expires_at : ℕ

pub record Db : Type 0 where
  pub organizations : List Organization
  pub principals : List Principal
  pub users : List User
  pub organization_memberships : List Membership
  pub oidc_clients : List OidcClient
  pub oidc_authorization_codes : List CodeRow

-- The client is the platform's, or its organization and the principal's membership are active.
abbrev pub is_scope_live : Db → OidcClient → Option String → Principal → Bool
is_scope_live db client none p = client.scope_kind == "platform"
is_scope_live db client (some o) p =
    client.scope_kind == "organization"
    && any (λ organization. organization.id == o && organization.status == "active")
        db.organizations
    && any (λ m. is_membership o p.id m && m.status == "active") db.organization_memberships

-- The join of a client, a user and the user's principal, all of them active.
abbrev pub is_principal_live : Db → OidcClient → User → Principal → Bool
is_principal_live db client u p =
    p.principal_type == "user"
    && p.ref_id == u.id
    && p.active
    && is_scope_live db client client.organization_id p

abbrev pub is_user_live : Db → OidcClient → String → User → Bool
is_user_live db client user_id u =
    u.id == user_id && u.active && any (is_principal_live db client u) db.principals

abbrev pub has_live_context : Db → String → Option String → String → Bool
has_live_context db client_id organization_id user_id =
    any
      (λ client.
        client.client_id == client_id
        && client.active
        && same_text client.organization_id organization_id
        && any (is_user_live db client user_id) db.users)
      db.oidc_clients

abbrev pub new_row : String → String → OidcAuthorizationCode → CodeRow
new_row id code_hash a = record {
  id = id;
  code_hash = code_hash;
  client_id = a.client_id;
  organization_id = a.organization_id;
  user_id = a.user_id;
  redirect_uri = a.redirect_uri;
  scopes = a.scopes;
  nonce = a.nonce;
  code_challenge = a.code_challenge;
  expires_at = a.expires_at;
  consumed_at = none;
}

-- INSERT: the primary key and UNIQUE (code_hash).
abbrev pub insert_code : CodeRow → Db → Result Db Failure
insert_code c db =
    if any (λ r. r.id == c.id || r.code_hash == c.code_hash) db.oidc_authorization_codes
    then err constraint_violation
    else ok (record db { oidc_authorization_codes = db.oidc_authorization_codes ++ c ∷ [] })

-- RETURNING …
abbrev pub granted : CodeRow → OidcAuthorizationCode
granted c = record {
  client_id = c.client_id;
  organization_id = c.organization_id;
  user_id = c.user_id;
  redirect_uri = c.redirect_uri;
  scopes = c.scopes;
  nonce = c.nonce;
  code_challenge = c.code_challenge;
  expires_at = c.expires_at;
}

abbrev pub grant_of : Option CodeRow → Option OidcAuthorizationCode
grant_of none = none
grant_of (some c) = some (granted c)

-- SET consumed_at = NOW()
abbrev pub consume_row : ℕ → CodeRow → CodeRow
consume_row now c = record c { consumed_at = some now }

-- An UPDATE … RETURNING of the rows that pass a test, of which the first is read.
abbrev pub consume_where : ℕ → (CodeRow → Bool) → Db → Option OidcAuthorizationCode × Db
consume_where now test db = (
  grant_of (find test db.oidc_authorization_codes),
  record db {
    oidc_authorization_codes = update_where test (consume_row now) db.oidc_authorization_codes;
  },
)

-- code_hash = … AND consumed_at IS NULL AND expires_at > NOW()
abbrev pub is_exchangeable : ℕ → String → CodeRow → Bool
is_exchangeable now h c = c.code_hash == h && is_none c.consumed_at && ltb now c.expires_at

abbrev pub is_exchangeable_by : Db → ℕ → String → String → Option String → CodeRow → Bool
is_exchangeable_by db now h client_id organization_id c =
    is_exchangeable now h c
    && c.client_id == client_id
    && same_text c.organization_id organization_id
    && has_live_context db c.client_id c.organization_id c.user_id

module _ (authorization_code_hash : String → String) where
  unfoldable pub create_authorization_code :
      String → String → OidcAuthorizationCode → Db → Result Db Failure
  create_authorization_code id raw_code a db =
      if has_live_context db a.client_id a.organization_id a.user_id
      then insert_code (new_row id (authorization_code_hash raw_code) a) db
      else err (bail "oidc_client_user_context_inactive")

  unfoldable pub consume_authorization_code : ℕ → String → Db → Option OidcAuthorizationCode × Db
  consume_authorization_code now raw_code db =
      consume_where now (is_exchangeable now (authorization_code_hash raw_code)) db

  unfoldable pub consume_authorization_code_for_client :
      ℕ → String → String → Option String → Db → Option OidcAuthorizationCode × Db
  consume_authorization_code_for_client now raw_code client_id organization_id db =
      consume_where now
        (is_exchangeable_by db now (authorization_code_hash raw_code) client_id organization_id) db
