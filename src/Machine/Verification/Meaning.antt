-- ===== src/Machine/Verification/Meaning.antt =====
-- When `verify_machine_credential` accepts an API key.
use keylo.Base.Results.{ok_or-eq-ok}
use mathlib.Core.Path.{subst}
use keylo.Base.Results.{Result, ok, err, ◌>>=◌, ok_or, bind-holds}
use keylo.Base.{
  eq_iff, ◌<◌, ℕ, String, Bool, true, false, not, ◌||◌, Option, none, some, ◌≡◌, refl, arith, ◌==◌,
  any, find, update_where, if◌then◌else◌, Bool-cases, Option-cases, inl, inr,
}
use keylo.Organizations.Tables.{Principal, Failure, bail}
use keylo.Machine.ApiKey.{parse_raw_api_key, key_prefix, api_key}
use keylo.Machine.ApiKey.RoundTrip.{parse_raw_api_key_iff}
use keylo.Machine.Tables.{MachineCredential, Db}
use keylo.Machine.Scope.{machine_principal_context_is_active}
use keylo.Machine.Credentials.{MachineCredentialInfo, machine_credential_from_row}
use keylo.Machine.Verification.{
  MachineCredentialVerification, authorized, invalid, is_unexpired, is_currently_valid, joined,
  used, verify_row, verify_parsed, verify_machine_credential,
}

-- A key without an expiry never expires.
abbrev pub IsUnexpired : ℕ → Option ℕ → Type 0
IsUnexpired now none = Unit
IsUnexpired now (some expires_at) = now < expires_at

is_unexpired-IsUnexpired : (now : ℕ) (o : Option ℕ) → is_unexpired now o ≡ true → IsUnexpired now o
is_unexpired-IsUnexpired now none fine = tt
is_unexpired-IsUnexpired now (some e) fine = ground (arith, fine)

-- What the row and its principal are when a key may be used.
pub record IsUsable (now : ℕ) (scope audience : String) (db : Db) (c : MachineCredential)
    (p : Principal) : Type 0 where
  pub active : c.status ≡ "active"
  pub unexpired : IsUnexpired now c.expires_at
  pub in_scope : any (λ s. s == scope) c.allowed_scopes ≡ true
  pub in_audience : any (λ a. a == audience || a == "*") c.allowed_audiences ≡ true
  pub principal_active : p.active ≡ true
  pub live : machine_principal_context_is_active db p c.organization_id ≡ true

is_currently_valid-IsUsable :
    (now : ℕ) (scope audience : String) (db : Db) (c : MachineCredential) (p : Principal)
    → is_currently_valid now scope audience db c p ≡ true
    → IsUsable now scope audience db c p
is_currently_valid-IsUsable now scope audience db c p fine = record {
  active = ground (arith, fine, eq_iff c.status "active");
  unexpired = is_unexpired-IsUnexpired now c.expires_at (ground (arith, fine));
  in_scope = ground (arith, fine);
  in_audience = ground (arith, fine);
  principal_active = ground (arith, fine);
  live = ground (arith, fine);
}

module _ (verify : String → String → Option Bool) (now : ℕ) (raw scope audience : String)
    (db : Db) where
  -- A key of which the text, the row, the secret, the limits and the principal are all right.
  pub record IsAuthorized (i : MachineCredentialInfo) (p : Principal) : Type 0 where
    pub key_id : String
    pub secret : String
    pub credential : MachineCredential
    pub is_key : raw ≡ api_key (key_prefix key_id) secret
    pub found : find (λ c. c.key_id == key_id) db.machine_credentials ≡ some credential
    pub principal_found :
        find (λ q. q.id == credential.principal_id) db.directory.principals ≡ some p
    pub is_secret : verify secret credential.secret_hash ≡ some true
    pub usable : IsUsable now scope audience db credential p
    pub answer : i ≡ record (machine_credential_from_row credential) { last_used_at = some now }

  unfoldable Sound : Result (MachineCredentialVerification × Db) Failure → Type 0
  Sound (err e) = Unit
  Sound (ok (invalid, db')) = db' ≡ db
  Sound (ok (authorized i p, db')) = IsAuthorized i p

  step :
      {A : Type 0} (r : Result A Failure)
      (rest : A → Result (MachineCredentialVerification × Db) Failure)
      → ((x : A) → r ≡ ok x → Sound (rest x))
      → Sound (r >>= rest)
  unfolding Sound
  step r rest = bind-holds Sound (λ e. tt) r rest

  verify_matched-Sound :
      (key_id secret : String) (c : MachineCredential) (p : Principal) (matches : Bool)
      → raw ≡ api_key (key_prefix key_id) secret
      → find (λ r. r.key_id == key_id) db.machine_credentials ≡ some c
      → find (λ q. q.id == c.principal_id) db.directory.principals ≡ some p
      → verify secret c.secret_hash ≡ some matches
      → Sound (
          if not matches || not (is_currently_valid now scope audience db c p)
          then ok (invalid, db)
          else ok (
            authorized (record (machine_credential_from_row c) { last_used_at = some now }) p,
            record db {
              machine_credentials =
                  update_where (λ r. r.key_id == c.key_id) (used now) db.machine_credentials;
            },
          ))
  unfolding Sound
  verify_matched-Sound key_id secret c p false is_key found found_p checked = refl
  verify_matched-Sound key_id secret c p true is_key found found_p checked =
      elim (Bool-cases (is_currently_valid now scope audience db c p)) [
        | inr stale ↦ rw stale refl
        | inl fine ↦ rw fine (record {
          key_id = key_id;
          secret = secret;
          credential = c;
          is_key = is_key;
          found = found;
          principal_found = found_p;
          is_secret = checked;
          usable = is_currently_valid-IsUsable now scope audience db c p fine;
          answer = refl;
        })
      ]

  verify_row-Sound :
      (key_id secret : String) (c : MachineCredential) (p : Principal)
      → raw ≡ api_key (key_prefix key_id) secret
      → find (λ r. r.key_id == key_id) db.machine_credentials ≡ some c
      → find (λ q. q.id == c.principal_id) db.directory.principals ≡ some p
      → Sound (verify_row verify now secret scope audience db (some (c, p)))
  unfolding verify_row
  verify_row-Sound key_id secret c p is_key found found_p =
      step (ok_or (bail "bcrypt") (verify secret c.secret_hash)) _ (λ matches checked.
        verify_matched-Sound key_id secret c p matches is_key found found_p
          (ok_or-eq-ok _ _ checked))

  verify_joined-Sound :
      (key_id secret : String) (row : Option MachineCredential)
      → raw ≡ api_key (key_prefix key_id) secret
      → find (λ r. r.key_id == key_id) db.machine_credentials ≡ row
      → Sound (verify_row verify now secret scope audience db (joined db row))
  unfolding Sound verify_row
  verify_joined-Sound key_id secret none is_key found = refl
  verify_joined-Sound key_id secret (some c) is_key found =
      elim (Option-cases (find (λ q. q.id == c.principal_id) db.directory.principals)) [
        | inl missing ↦ rw missing refl
        | inr (p, found_p) ↦ rw found_p (verify_row-Sound key_id secret c p is_key found found_p)
      ]

  verify_parsed-Sound :
      (parsed : Option (String × String))
      → parse_raw_api_key raw ≡ parsed
      → Sound (verify_parsed verify now scope audience db parsed)
  unfolding Sound verify_parsed
  verify_parsed-Sound none read = refl
  verify_parsed-Sound (some (key_id, secret)) read =
      let (is_key, _, _) = (parse_raw_api_key_iff raw key_id secret).0 read in
      verify_joined-Sound key_id secret (find (λ c. c.key_id == key_id) db.machine_credentials)
        is_key refl

  -- A key that is accepted has the form that is handed out; its row has a hash that its secret matches
  -- and is active, unexpired and allowed the scope and the audience; and its principal is active in
  -- the row's scope.
  pub verify-IsAuthorized :
      (i : MachineCredentialInfo) (p : Principal) (db' : Db)
      → verify_machine_credential verify now raw scope audience db ≡ ok (authorized i p, db')
      → IsAuthorized i p
  unfolding Sound verify_machine_credential
  verify-IsAuthorized i p db' done =
      subst Sound done (verify_parsed-Sound (parse_raw_api_key raw) refl)
