-- ===== src/Machine/Examples.antt =====
-- A device of the platform, which gets a key, uses it and loses it.
use keylo.Base.Text.{IsHex32}
use keylo.Base.Results.{ok}
use keylo.Base.{
  eq_iff, String, Bool, true, Option, none, some, List, [], ◌∷◌, ◌≡◌, ◌↔◌, refl, arith, ◌==◌,
}
use keylo.Organizations.Tables.{Principal}
use keylo.Machine.ApiKey.{split_dots, parse_raw_api_key, key_prefix, api_key}
use keylo.Machine.ApiKey.RoundTrip.{parse_raw_api_key_iff}
use keylo.Machine.Tables.{MachineCredential, Db}
use keylo.Machine.Scope.{
  scope_row, lock_machine_principal_scope, machine_principal_context_is_active,
}
use keylo.Machine.Credentials.{
  CreateMachineCredentialParams, FreshKey, MachineCredentialInfo, machine_credential_from_row,
  MachineCredentialSecretResponse, new_credential, insert_row, insert_machine_credential,
  revoke_machine_credential_in_scope,
}
use keylo.Machine.Verification.{authorized, verify_row, verify_parsed, verify_machine_credential}
use keylo.Machine.Verification.Meaning.{IsAuthorized, verify-IsAuthorized}
use keylo.Machine.Credentials.Issued.{IsAccepted, insert-IsAccepted}
use keylo.Machine.Credentials.Runs.{Op, create, verify_key, acceptances}
use keylo.Machine.Credentials.Finality.{revocation-final}

abbrev key_id : String
key_id = "00000000000000000000000000000001"

abbrev secret : String
secret = "0123456789abcdef0123456789abcdef"

parse-key :
    parse_raw_api_key "keylo.00000000000000000000000000000001.0123456789abcdef0123456789abcdef"
    ≡ some (key_id, secret)
unfolding parse_raw_api_key split_dots
parse-key = refl

parse-four_parts : parse_raw_api_key "keylo.1.2.3" ≡ none
unfolding parse_raw_api_key split_dots
parse-four_parts = refl

abbrev raw : String
raw = "keylo.00000000000000000000000000000001.0123456789abcdef0123456789abcdef"

parse_raw_api_key_iff_example :
    (parse_raw_api_key raw ≡ some (key_id, secret))
    ↔ ((raw ≡ api_key (key_prefix key_id) secret) × IsHex32 key_id × IsHex32 secret)
parse_raw_api_key_iff_example = parse_raw_api_key_iff raw key_id secret

abbrev device : Principal
device = record {
  id = "device-d1";
  principal_type = "device";
  subject = "device:d1";
  ref_id = "d1";
  display_name = "Door";
  active = true;
  updated_at = 1;
}

abbrev start : Db
start = record {
  directory = record {
    organizations = [];
    principals = device ∷ [];
    users = [];
    organization_memberships = [];
    refresh_sessions = [];
    oidc_authorization_codes = [];
  };
  service_clients = [];
  device_principal_scopes =
      record { principal_id = "device-d1"; scope_kind = "platform"; organization_id = none } ∷ [];
  machine_credentials = [];
}

abbrev params : CreateMachineCredentialParams
params = record {
  principal_id = "device-d1";
  organization_id = none;
  created_by_principal_id = none;
  expires_at = some 900;
  allowed_scopes = "read" ∷ [];
  allowed_audiences = "*" ∷ [];
}

abbrev fresh : FreshKey
fresh = record { key_id = key_id; secret = secret; hashed = some secret }

abbrev plain_verify : String → String → Option Bool
plain_verify text hash = some (text == hash)

abbrev row : MachineCredential
row = new_credential 5 key_id secret none params

abbrev issued : Db
issued = record start { machine_credentials = row ∷ [] }

abbrev response : MachineCredentialSecretResponse
response = record {
  credential = machine_credential_from_row row;
  api_key = api_key (key_prefix key_id) secret;
}

insert-start : insert_machine_credential 5 fresh params start ≡ ok (response, issued)
unfolding insert_machine_credential insert_row lock_machine_principal_scope scope_row
insert-start = refl

secret-verifies : (h : String) → some secret ≡ some h → plain_verify secret h ≡ some true
secret-verifies h same = ground (arith, same, eq_iff secret h)

insert-IsAccepted_example :
    IsAccepted plain_verify 5 fresh params start 20 "read" "door" response issued
insert-IsAccepted_example =
    insert-IsAccepted plain_verify 5 fresh params start 20 "read" "door" response issued
      (refl, refl) (refl, refl) insert-start refl refl refl secret-verifies

abbrev info : MachineCredentialInfo
info = record (machine_credential_from_row row) { last_used_at = some 20 }

abbrev used_db : Db
used_db = record start {
  machine_credentials = record row { last_used_at = some 20; updated_at = 20 } ∷ [];
}

verify-issued :
    verify_machine_credential plain_verify 20 raw "read" "door" issued
    ≡ ok (authorized info device, used_db)
unfolding verify_machine_credential verify_parsed verify_row parse_raw_api_key split_dots
    machine_principal_context_is_active scope_row
verify-issued = refl

verify-IsAuthorized_example : IsAuthorized plain_verify 20 raw "read" "door" issued info device
verify-IsAuthorized_example =
    verify-IsAuthorized plain_verify 20 raw "read" "door" issued info device used_db verify-issued

abbrev later : List Op
later = create 40 fresh params ∷ verify_key 41 raw "read" "door" ∷ []

revocation-final_example :
    acceptances plain_verify key_id later
      (revoke_machine_credential_in_scope 30 "device-d1" none key_id (some "lost") issued).1
    ≡ 0
unfolding revoke_machine_credential_in_scope
revocation-final_example =
    revocation-final key_id plain_verify 30 "device-d1" none (some "lost") later issued
      (omega arith) refl
