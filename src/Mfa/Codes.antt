-- ===== src/Mfa/Codes.antt =====
-- The text of a recovery code: `normalize_recovery_code` and `format_recovery_code` of
-- src/models/mfa.rs. A raw code is ASCII, so its bytes are its characters.
pub mod RoundTrip
use Prim.Native.Char.{Char, code}
use Prim.Native.String.{[], ◌∷◌}
use keylo.Base.Text.{◌⧺◌, str_len, all_chars, is_ascii_hexdigit, is_ascii_uppercase}
use keylo.Base.{
  ℕ, zero, suc, ◌-◌, String, Bool, true, false, not, ◌&&◌, ◌||◌, Option, none, some, eqb,
  if◌then◌else◌,
}

-- The letter at a place of an alphabet, or the default.
abbrev letter : ℕ → String → Char → Char
letter n [] c = c
letter zero (d ∷ s) c = d
letter (suc n) (d ∷ s) c = letter n s c

abbrev lowercase : Char → Char
lowercase c =
    if is_ascii_uppercase (code c) then letter (code c - 65) "abcdefghijklmnopqrstuvwxyz" c else c

-- `to_ascii_lowercase`
unfoldable pub to_ascii_lowercase : String → String
to_ascii_lowercase [] = []
to_ascii_lowercase (c ∷ s) = lowercase c ∷ to_ascii_lowercase s

-- `replace('-', "")`
abbrev pub without_dashes : String → String
without_dashes [] = []
without_dashes (c ∷ s) = let rest = without_dashes s in if eqb (code c) b'-' then rest else c ∷ rest

abbrev pub is_code_char : ℕ → Bool
is_code_char c = is_ascii_hexdigit c || eqb c b'-'

unfoldable pub normalize_recovery_code : String → Option String
normalize_recovery_code raw =
    let compact = without_dashes raw in
    if not (all_chars is_code_char raw)
    then none
    else if eqb (str_len compact) 32 && all_chars is_ascii_hexdigit compact
    then some (to_ascii_lowercase compact)
    else none

-- `&s[..n]` and `&s[n..]`
abbrev pub take : ℕ → String → String
take zero s = []
take (suc n) [] = []
take (suc n) (c ∷ s) = c ∷ take n s

abbrev pub drop : ℕ → String → String
drop zero s = s
drop (suc n) [] = []
drop (suc n) (c ∷ s) = drop n s

unfoldable pub format_recovery_code : String → String
format_recovery_code raw =
    take 8 raw ⧺ "-" ⧺ take 8 (drop 8 raw) ⧺ "-" ⧺ take 8 (drop 16 raw) ⧺ "-" ⧺ drop 24 raw
