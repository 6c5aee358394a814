-- ===== src/Machine/ApiKey.antt =====
-- The text of an API key: `parse_raw_api_key` of src/db/machine.rs, and the text that
-- `insert_machine_credential` hands out.
pub mod RoundTrip
use Prim.Native.Char.{Char, code}
use Prim.Native.String.{[], ◌∷◌}
use keylo.Base.Text.{◌⧺◌, str_len, all_chars, is_ascii_hexdigit}
use keylo.Base.{
  ℕ, String, Bool, true, false, not, ◌||◌, Option, none, some, List, [], ◌∷◌, ◌==◌, eqb,
  if◌then◌else◌,
}

-- A character in front of the first component.
abbrev pub in_front : Char → List String → List String
in_front c [] = (c ∷ []) ∷ []
in_front c (part ∷ parts) = (c ∷ part) ∷ parts

-- `split('.')`
unfoldable pub split_dots : String → List String
split_dots [] = [] ∷ []
split_dots (c ∷ s) =
    let rest = split_dots s in if eqb (code c) b'.' then [] ∷ rest else in_front c rest

-- The three components, and no fourth one.
abbrev pub parse_components : List String → Option (String × String)
parse_components (prefix ∷ key_id ∷ secret ∷ []) =
    if not (prefix == "keylo")
      || not (eqb (str_len key_id) 32)
      || not (eqb (str_len secret) 32)
      || not (all_chars is_ascii_hexdigit key_id)
      || not (all_chars is_ascii_hexdigit secret)
    then none
    else some (key_id, secret)
parse_components _ = none

unfoldable pub parse_raw_api_key : String → Option (String × String)
parse_raw_api_key raw_api_key = parse_components (split_dots raw_api_key)

-- format!("keylo.{key_id}")
abbrev pub key_prefix : String → String
key_prefix key_id = "keylo." ⧺ key_id

-- format!("{prefix}.{secret}")
abbrev pub api_key : String → String → String
api_key prefix secret = prefix ⧺ "." ⧺ secret
