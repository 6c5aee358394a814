-- ===== src/Oidc/Codes/Context.antt =====
-- What `has_live_context`, the join in the statements of src/db/oidc.rs, asks of the tables.
use keylo.Base.{
  Memᴰ, any-Mem, ◌&&◌, ◌⊎◌, sym, ◌∙◌, String, Bool, true, Option, none, some, ◌≡◌, refl, ap, arith,
  ◌==◌, eq_iff, any, inl, inr,
}
use keylo.Session.Tables.{same_text}
use keylo.Organizations.Tables.{Organization, Principal, User, Membership, is_membership}
use keylo.Oidc.Requests.{OidcClient}
use keylo.Oidc.Codes.{Db, is_scope_live, is_principal_live, is_user_live, has_live_context}

-- The client is the platform's, or belongs to an active organization in which the principal is an
-- active member.
abbrev pub IsScopeLive : Db → OidcClient → Principal → Type 0
IsScopeLive db client p =
    ((client.organization_id ≡ none) × (client.scope_kind ≡ "platform"))
    ⊎ ((o : Organization) × (m : Membership) × (client.organization_id ≡ some o.id)
        × (client.scope_kind ≡ "organization")
        × Memᴰ o db.organizations
        × (o.status ≡ "active")
        × Memᴰ m db.organization_memberships
        × (m.organization_id ≡ o.id)
        × (m.principal_id ≡ p.id)
        × (m.status ≡ "active"))

-- An active client in this scope, an active person and the person's active principal.
pub record IsLiveContext (db : Db) (client_id : String) (organization_id : Option String)
    (user_id : String) : Type 0 where
  pub client : OidcClient
  pub user : User
  pub principal : Principal
  pub client_there : Memᴰ client db.oidc_clients
  pub same_client : client.client_id ≡ client_id
  pub client_active : client.active ≡ true
  pub same_organization : client.organization_id ≡ organization_id
  pub user_there : Memᴰ user db.users
  pub same_user : user.id ≡ user_id
  pub user_active : user.active ≡ true
  pub principal_there : Memᴰ principal db.principals
  pub is_user : principal.principal_type ≡ "user"
  pub same_principal : principal.ref_id ≡ user.id
  pub principal_active : principal.active ≡ true
  pub scope_live : IsScopeLive db client principal

pub same_text-eq : (a b : Option String) → same_text a b ≡ true → a ≡ b
same_text-eq none none h = refl
same_text-eq (some a) (some b) h = cc ((eq_iff a b).0 h)
same_text-eq none (some b) h = cc
same_text-eq (some a) none h = cc

scope-IsScopeLive :
    (db : Db) (client : OidcClient) (p : Principal) (organization_id : Option String)
    → client.organization_id ≡ organization_id
    → is_scope_live db client organization_id p ≡ true
    → IsScopeLive db client p
scope-IsScopeLive db client p none same live =
    inl (same, (eq_iff client.scope_kind "platform").0 live)
scope-IsScopeLive db client p (some id) same live =
    let (o, o_there, o_fine) =
      any-Mem (λ r. r.id == id && r.status == "active") db.organizations (ground (arith, live)) in
    let (m, m_there, m_fine) =
      any-Mem (λ r. is_membership id p.id r && r.status == "active") db.organization_memberships
        (ground (arith, live)) in
    let named : o.id ≡ id = (eq_iff o.id id).0 (ground (arith, o_fine)) in
    inr (
      o,
      m,
      same ∙ ap some (sym named),
      (eq_iff client.scope_kind "organization").0 (ground (arith, live)),
      o_there,
      (eq_iff o.status "active").0 (ground (arith, o_fine)),
      m_there,
      (eq_iff m.organization_id id).0 (ground (arith, m_fine)) ∙ sym named,
      (eq_iff m.principal_id p.id).0 (ground (arith, m_fine)),
      (eq_iff m.status "active").0 (ground (arith, m_fine)),
    )

principal-parts :
    (db : Db) (client : OidcClient) (u : User) (p : Principal)
    → is_principal_live db client u p ≡ true
    → (p.principal_type ≡ "user") × (p.ref_id ≡ u.id) × (p.active ≡ true) × IsScopeLive db client p
principal-parts db client u p live = (
  (eq_iff p.principal_type "user").0 (ground (arith, live)),
  (eq_iff p.ref_id u.id).0 (ground (arith, live)),
  ground (arith, live),
  scope-IsScopeLive db client p client.organization_id refl (ground (arith, live)),
)

user-parts :
    (db : Db) (client : OidcClient) (user_id : String) (u : User)
    → is_user_live db client user_id u ≡ true
    → (u.id ≡ user_id)
      × (u.active ≡ true)
      × (any (is_principal_live db client u) db.principals ≡ true)
user-parts db client user_id u live =
    ((eq_iff u.id user_id).0 (ground (arith, live)), ground (arith, live), ground (arith, live))

abbrev is_client_live : Db → String → Option String → String → OidcClient → Bool
is_client_live db client_id organization_id user_id client =
    client.client_id == client_id
    && client.active
    && same_text client.organization_id organization_id
    && any (is_user_live db client user_id) db.users

client-parts :
    (db : Db) (client_id : String) (organization_id : Option String) (user_id : String)
    (client : OidcClient)
    → is_client_live db client_id organization_id user_id client ≡ true
    → (client.client_id ≡ client_id)
      × (client.active ≡ true)
      × (client.organization_id ≡ organization_id)
      × (any (is_user_live db client user_id) db.users ≡ true)
client-parts db client_id organization_id user_id client live = (
  (eq_iff client.client_id client_id).0 (ground (arith, live)),
  ground (arith, live),
  same_text-eq client.organization_id organization_id (ground (arith, live)),
  ground (arith, live),
)

pub context-IsLiveContext :
    (db : Db) (client_id : String) (organization_id : Option String) (user_id : String)
    → has_live_context db client_id organization_id user_id ≡ true
    → IsLiveContext db client_id organization_id user_id
context-IsLiveContext db client_id organization_id user_id live =
    let (client, client_there, client_fine) =
      any-Mem (is_client_live db client_id organization_id user_id) db.oidc_clients live in
    let (same_client, client_active, same_organization, users) =
      client-parts db client_id organization_id user_id client client_fine in
    let (user, user_there, user_fine) = any-Mem (is_user_live db client user_id) db.users users in
    let (same_user, user_active, principals) = user-parts db client user_id user user_fine in
    let (principal, principal_there, fine) =
      any-Mem (is_principal_live db client user) db.principals principals in
    let (is_user, same_principal, principal_active, scope_live) =
      principal-parts db client user principal fine in
    record {
      client = client;
      user = user;
      principal = principal;
      client_there = client_there;
      same_client = same_client;
      client_active = client_active;
      same_organization = same_organization;
      user_there = user_there;
      same_user = same_user;
      user_active = user_active;
      principal_there = principal_there;
      is_user = is_user;
      same_principal = same_principal;
      principal_active = principal_active;
      scope_live = scope_live;
    }
