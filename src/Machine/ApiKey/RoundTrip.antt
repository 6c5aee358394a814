-- ===== src/Machine/ApiKey/RoundTrip.antt =====
-- The texts that parse are the texts that are handed out.
use Prim.Native.Char.{Char, char, code}
use Prim.Native.String.{[], ◌∷◌}
use text.Mathlib.TextLemmas.{nil-append, cons-append, append_assoc}
use text.Mathlib.TextEquality.{Char-path}
use keylo.Base.Text.{◌⧺◌, str_len, all_chars, is_ascii_hexdigit, IsHex32}
use keylo.Base.{
  ℕ, String, Bool, true, not, ◌&&◌, Option, some, List, [], ◌∷◌, ◌≡◌, ◌↔◌, refl, ap, sym, ◌∙◌,
  arith, ◌==◌, eq_iff, eqb, Bool-cases, inl, inr,
}
use keylo.Machine.ApiKey.{
  in_front, split_dots, parse_components, parse_raw_api_key, key_prefix, api_key,
}

abbrev not_dot : ℕ → Bool
not_dot c = not (eqb c b'.')

dot-split : (rest : String) → split_dots ("." ⧺ rest) ≡ [] ∷ split_dots rest
unfolding split_dots
dot-split rest = rw (cons-append, nil-append) refl

-- A component without a dot ends where the first dot is.
split-component :
    (part rest : String)
    → all_chars not_dot part ≡ true
    → split_dots (part ⧺ "." ⧺ rest) ≡ part ∷ split_dots rest
unfolding split_dots
split-component [] rest plain = rw nil-append (dot-split rest)
split-component (c ∷ part) rest plain =
    rw cons-append (ground (arith, plain, split-component part rest))

split-last : (part : String) → all_chars not_dot part ≡ true → split_dots part ≡ part ∷ []
unfolding split_dots
split-last [] plain = refl
split-last (c ∷ part) plain = ground (arith, split-last part)

hex-plain :
    (part : String) → all_chars is_ascii_hexdigit part ≡ true → all_chars not_dot part ≡ true
hex-plain [] hex = refl
hex-plain (c ∷ part) hex = ground (arith, hex-plain part)

-- Components with dots between them.
join_dots : List String → String
join_dots [] = []
join_dots (part ∷ []) = part
join_dots (part ∷ next ∷ parts) = part ⧺ "." ⧺ join_dots (next ∷ parts)

join-in_front :
    (c : Char) (parts : List String) → join_dots (in_front c parts) ≡ c ∷ join_dots parts
unfolding join_dots
join-in_front c [] = refl
join-in_front c (part ∷ []) = refl
join-in_front c (part ∷ next ∷ parts) = rw cons-append refl

dot-join :
    (part : String) (parts : List String)
    → join_dots ([] ∷ part ∷ parts) ≡ char b'.' tt ∷ join_dots (part ∷ parts)
unfolding join_dots
dot-join part parts = rw (nil-append, cons-append, nil-append) refl

in_front-cons :
    (c : Char) (parts : List String)
    → (part : String) × (rest : List String) × (in_front c parts ≡ part ∷ rest)
in_front-cons c [] = (c ∷ [], [], refl)
in_front-cons c (part ∷ parts) = (c ∷ part, parts, refl)

split-cons : (s : String) → (part : String) × (rest : List String) × (split_dots s ≡ part ∷ rest)
unfolding split_dots
split-cons [] = ([], [], refl)
split-cons (c ∷ s) = elim (Bool-cases (eqb (code c) b'.')) [
  | inl dot ↦ ([], split_dots s, rw dot refl)
  | inr other ↦ rw other (in_front-cons c (split_dots s))
]

join-split : (s : String) → join_dots (split_dots s) ≡ s
unfolding split_dots join_dots
join-split [] = refl
join-split (c ∷ s) = elim (Bool-cases (eqb (code c) b'.')) [
  | inl dot ↦
      let (part, parts, shape) = split-cons s in
      let is_dot : c ≡ char b'.' tt = Char-path c (char b'.' tt) (ground (arith, dot)) in
      cc (shape, dot, is_dot, dot-join part parts, join-split s)
  | inr other ↦ cc (other, join-in_front c (split_dots s), join-split s)
]

-- What the three tests of the parser say together.
parse_components-eq-some :
    (parts : List String) (key_id secret : String)
    → parse_components parts ≡ some (key_id, secret)
    → (parts ≡ "keylo" ∷ key_id ∷ secret ∷ []) × IsHex32 key_id × IsHex32 secret
parse_components-eq-some [] key_id secret e = cc
parse_components-eq-some (p ∷ []) key_id secret e = cc
parse_components-eq-some (p ∷ k ∷ []) key_id secret e = cc
parse_components-eq-some (p ∷ k ∷ s ∷ x ∷ parts) key_id secret e = cc
parse_components-eq-some (p ∷ k ∷ s ∷ []) key_id secret e =
    let keylo : (p == "keylo") ≡ true = ground (arith, e) in
    let lengths : (eqb (str_len k) 32 && eqb (str_len s) 32) ≡ true = ground (arith, e) in
    let digits : (all_chars is_ascii_hexdigit k && all_chars is_ascii_hexdigit s) ≡ true =
      ground (arith, e) in
    let same : Path (Option (String × String)) (some (k, s)) (some (key_id, secret)) =
      ground (arith, e) in
    let first = (eq_iff p "keylo").0 keylo in
    let second : k ≡ key_id = cc (same) in
    let third : s ≡ secret = cc (same) in
    (
      cc (first, second, third),
      rw⁻¹ second (ground (arith, lengths), ground (arith, digits)),
      rw⁻¹ third (ground (arith, lengths), ground (arith, digits)),
    )

parse_components-keylo :
    (key_id secret : String)
    → IsHex32 key_id
    → IsHex32 secret
    → parse_components ("keylo" ∷ key_id ∷ secret ∷ []) ≡ some (key_id, secret)
parse_components-keylo key_id secret (len, hex) (len', hex') = ground arith

join-keylo :
    (key_id secret : String)
    → join_dots ("keylo" ∷ key_id ∷ secret ∷ []) ≡ api_key (key_prefix key_id) secret
unfolding join_dots
join-keylo key_id secret =
    rw (append_assoc "keylo." key_id ("." ⧺ secret))
      (sym (append_assoc "keylo" "." (key_id ⧺ "." ⧺ secret)))

split-api_key :
    (key_id secret : String)
    → IsHex32 key_id
    → IsHex32 secret
    → split_dots (api_key (key_prefix key_id) secret) ≡ "keylo" ∷ key_id ∷ secret ∷ []
unfolding join_dots
split-api_key key_id secret (len, hex) (len', hex') = rw (sym (join-keylo key_id secret)) (
    cc (
      split-component "keylo" (key_id ⧺ "." ⧺ secret) refl,
      split-component key_id secret (hex-plain key_id hex),
      split-last secret (hex-plain secret hex'),
    ))

-- A text is read as an API key with a key identifier and a secret exactly when these are 32
-- hexadecimal digits each and the text is the one that is handed out for them.
pub parse_raw_api_key_iff :
    (raw_api_key key_id secret : String)
    → (parse_raw_api_key raw_api_key ≡ some (key_id, secret))
      ↔ ((raw_api_key ≡ api_key (key_prefix key_id) secret) × IsHex32 key_id × IsHex32 secret)
unfolding parse_raw_api_key
parse_raw_api_key_iff raw_api_key key_id secret = (
  λ read.
      let parsed = parse_components-eq-some (split_dots raw_api_key) key_id secret read in
      (
        sym (join-split raw_api_key) ∙ ap join_dots parsed.0 ∙ join-keylo key_id secret,
        parsed.1,
        parsed.2,
      ),
  λ (same, hex, hex').
      cc
        (same, split-api_key key_id secret hex hex', parse_components-keylo key_id secret hex hex'),
)
