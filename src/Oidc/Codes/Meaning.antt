-- ===== src/Oidc/Codes/Meaning.antt =====
-- Which presentation of a code is answered with a grant.
use keylo.Base.{
  Memᴰ, ℕ, ◌<◌, String, Bool, true, false, ◌||◌, Option, none, some, List, [], ◌∷◌, ◌++◌, ◌≡◌, refl,
  ap, arith, ◌==◌, eq_iff, eq_refl, any, find, Bool-cases, inl, inr,
}
use keylo.Base.Results.{ok}
use keylo.Session.Tables.{is_none, same_text}
use keylo.Oidc.Codes.{
  CodeRow, OidcAuthorizationCode, Db, has_live_context, new_row, insert_code, granted, grant_of,
  is_exchangeable_by, create_authorization_code, consume_authorization_code_for_client,
}
use keylo.Oidc.Codes.Context.{IsLiveContext, same_text-eq, context-IsLiveContext}

module _ (authorization_code_hash : String → String) where
  -- A row that may be exchanged, and what is handed out for it.
  pub record IsExchange (now : ℕ) (raw_code client_id : String) (organization_id : Option String)
      (db : Db) (a : OidcAuthorizationCode) : Type 0 where
    pub row : CodeRow
    pub there : Memᴰ row db.oidc_authorization_codes
    pub digest : row.code_hash ≡ authorization_code_hash raw_code
    pub unconsumed : row.consumed_at ≡ none
    pub alive : now < row.expires_at
    pub client : row.client_id ≡ client_id
    pub organization : row.organization_id ≡ organization_id
    pub live : IsLiveContext db row.client_id row.organization_id row.user_id
    pub answer : a ≡ granted row

  is_none-eq : (o : Option ℕ) → is_none o ≡ true → o ≡ none
  is_none-eq none h = refl
  is_none-eq (some n) h = cc

  same_text_refl : (a : Option String) → same_text a a ≡ true
  same_text_refl none = refl
  same_text_refl (some a) = eq_refl a

  find-passes :
      (test : CodeRow → Bool) (cs : List CodeRow) (a : OidcAuthorizationCode)
      → grant_of (find test cs) ≡ some a
      → (c : CodeRow) × Memᴰ c cs × (test c ≡ true) × (a ≡ granted c)
  find-passes test [] a found = cc
  find-passes test (c ∷ cs) a found = elim (Bool-cases (test c)) [
    | inl passes ↦
        let same : grant_of (some c) ≡ some a = ground (arith, found, passes) in
        (c, Memᴰ.head refl, passes, cc same)
    | inr fails ↦
        let (row, there, passes, answer) = find-passes test cs a (ground (arith, found, fails)) in
        (row, Memᴰ.tail there, passes, answer)
  ]

  -- A grant for a code that a client presents is that of a row with the code's digest that is not
  -- consumed and not expired, for this client and this organization, while the client, the user and
  -- the user's principal are active, and the client is either the platform's or belongs to an active
  -- organization that the principal is an active member of.
  pub consume-IsExchange :
      (now : ℕ) (raw_code client_id : String) (organization_id : Option String) (db : Db)
      (a : OidcAuthorizationCode)
      → (consume_authorization_code_for_client authorization_code_hash now raw_code client_id
          organization_id db).0
        ≡ some a
      → IsExchange now raw_code client_id organization_id db a
  unfolding consume_authorization_code_for_client
  consume-IsExchange now raw_code client_id organization_id db a done =
      let (c, there, passes, answer) = find-passes _ db.oidc_authorization_codes a done in
      record {
        row = c;
        there = there;
        digest = (eq_iff c.code_hash (authorization_code_hash raw_code)).0 (ground (arith, passes));
        unconsumed = is_none-eq c.consumed_at (ground (arith, passes));
        alive = ground (arith, passes);
        client = (eq_iff c.client_id client_id).0 (ground (arith, passes));
        organization = same_text-eq c.organization_id organization_id (ground (arith, passes));
        live =
            context-IsLiveContext db c.client_id c.organization_id c.user_id
              (ground (arith, passes));
        answer = answer;
      }

  find-last :
      (test : CodeRow → Bool) (h : String) (c : CodeRow) (cs : List CodeRow)
      → ((r : CodeRow) → test r ≡ true → (r.code_hash == h) ≡ true)
      → any (λ r. r.id == c.id || r.code_hash == h) cs ≡ false
      → test c ≡ true
      → find test (cs ++ c ∷ []) ≡ some c
  find-last test h c [] narrow new passes = rw passes refl
  find-last test h c (r ∷ cs) narrow new passes = elim (Bool-cases (test r)) [
    | inl early ↦ ground (arith, narrow r early, new)
    | inr late ↦ rw late (find-last test h c cs narrow (ground (arith, new)) passes)
  ]

  created-granted :
      (id raw_code : String) (now : ℕ) (a : OidcAuthorizationCode) (db db' : Db)
      → has_live_context db a.client_id a.organization_id a.user_id ≡ true
      → insert_code (new_row id (authorization_code_hash raw_code) a) db ≡ ok db'
      → now < a.expires_at
      → (consume_authorization_code_for_client authorization_code_hash now raw_code a.client_id
          a.organization_id db').0
        ≡ some a
  unfolding consume_authorization_code_for_client
  created-granted id raw_code now a db db' live done alive =
      let h = authorization_code_hash raw_code in
      let row = new_row id h a in
      let codes = db.oidc_authorization_codes in
      let new : any (λ r. r.id == id || r.code_hash == h) codes ≡ false = ground (arith, done) in
      let same : db' ≡ record db { oidc_authorization_codes = codes ++ row ∷ [] } =
        ground (arith, done) in
      let passes : is_exchangeable_by db now h a.client_id a.organization_id row ≡ true =
        ground
          (arith, live, alive, eq_refl h, eq_refl a.client_id, same_text_refl a.organization_id) in
      let last_ =
        find-last (is_exchangeable_by db now h a.client_id a.organization_id) h row codes
          (λ r fine. ground (arith, fine)) new passes in
      rw same (ap grant_of last_)

  -- A code that is created is exchanged, by the client and in the organization that it was created
  -- for and before it expires, for exactly the authorization that it was created with, in the tables
  -- as its creation left them.
  pub create-consume :
      (id raw_code : String) (now : ℕ) (a : OidcAuthorizationCode) (db db' : Db)
      → create_authorization_code authorization_code_hash id raw_code a db ≡ ok db'
      → now < a.expires_at
      → (consume_authorization_code_for_client authorization_code_hash now raw_code a.client_id
          a.organization_id db').0
        ≡ some a
  unfolding create_authorization_code
  create-consume id raw_code now a db db' done alive =
      elim (Bool-cases (has_live_context db a.client_id a.organization_id a.user_id)) [
        | inl live ↦
            created-granted id raw_code now a db db' live (ground (arith, done, live)) alive
        | inr dead ↦ ground (arith, done, dead)
      ]
