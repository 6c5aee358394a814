-- ===== src/Base/Text.antt =====
-- Operations of `str` on the native texts.
use Prim.Native.String as PrimString
use Prim.Native.String.{String, [], ◌∷◌}
use Prim.Native.Char.{code}
use Prim.Native.Nat.{ℕ}
use mathlib.Core.Bool.{Bool, true, false, ◌&&◌, ◌||◌}
use mathlib.Core.Path.{◌≡◌}
use mathlib.Core.Option.{Option, none, some}
use keylo.Base.Tests.{eqb, leb, if◌then◌else◌}

-- `strip_prefix`
abbrev pub strip_prefix : String → String → Option String
strip_prefix [] s = some s
strip_prefix (c ∷ p) [] = none
strip_prefix (c ∷ p) (d ∷ s) =
    let rest = strip_prefix p s in if eqb (code c) (code d) then rest else none

-- `char::is_whitespace`
abbrev is_whitespace : ℕ → Bool
is_whitespace c =
    leb 9 c && leb c 13
    || eqb c 32
    || eqb c 133
    || eqb c 160
    || eqb c 5760
    || leb 8192 c && leb c 8202
    || eqb c 8232
    || eqb c 8233
    || eqb c 8239
    || eqb c 8287
    || eqb c 12288

-- `trim().is_empty()`
abbrev pub is_blank : String → Bool
is_blank [] = true
is_blank (c ∷ s) = is_whitespace (code c) && is_blank s

infixr 65 ◌⧺◌
-- Two texts one after the other.
abbrev pub ◌⧺◌ : String → String → String
◌⧺◌ = PrimString.◌++◌

-- `str::is_empty`
abbrev pub is_empty : String → Bool
is_empty [] = true
is_empty (c ∷ s) = false

-- `str::len`, in bytes.
abbrev pub str_len : String → ℕ
str_len = PrimString.len

-- `chars().all`, for a test on the characters' codes.
abbrev pub all_chars : (ℕ → Bool) → String → Bool
all_chars test [] = true
all_chars test (c ∷ s) = test (code c) && all_chars test s

-- `chars().any`
abbrev pub any_char : (ℕ → Bool) → String → Bool
any_char test [] = false
any_char test (c ∷ s) = test (code c) || any_char test s

abbrev pub between : ℕ → ℕ → ℕ → Bool
between low high c = leb low c && leb c high

-- `is_ascii_digit`, `is_ascii_uppercase`, `is_ascii_lowercase`, `is_ascii_hexdigit`
abbrev pub is_ascii_digit : ℕ → Bool
is_ascii_digit = between 48 57

abbrev pub is_ascii_uppercase : ℕ → Bool
is_ascii_uppercase = between 65 90

abbrev pub is_ascii_lowercase : ℕ → Bool
is_ascii_lowercase = between 97 122

abbrev pub is_ascii_hexdigit : ℕ → Bool
is_ascii_hexdigit c = is_ascii_digit c || between 65 70 c || between 97 102 c

abbrev trim_start : String → String
trim_start [] = []
trim_start (c ∷ s) = let rest = trim_start s in if is_whitespace (code c) then rest else c ∷ s

abbrev trim_end : String → String
trim_end [] = []
trim_end (c ∷ s) = let rest = trim_end s in if is_blank (c ∷ s) then [] else c ∷ rest

-- `str::trim`
abbrev pub trim : String → String
trim s = trim_end (trim_start s)

-- Two and thirty hexadecimal digits: an identifier as `Uuid::simple` prints it.
abbrev pub IsHex32 : String → Type 0
IsHex32 s = (str_len s ≡ 32) × (all_chars is_ascii_hexdigit s ≡ true)
