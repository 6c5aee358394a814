-- ===== src/Mfa/Codes/RoundTrip.antt =====
-- The code that a person types as it was shown is the code that was stored.
use Prim.Native.Char.{code}
use Prim.Native.String.{[], ◌∷◌}
use text.Mathlib.TextLemmas.{nil-append, cons-append}
use keylo.Base.Text.{◌⧺◌, all_chars, is_ascii_hexdigit, IsHex32}
use keylo.Base.{
  ℕ, zero, suc, String, Bool, true, ◌&&◌, some, ◌+◌, ◌≡◌, refl, sym, ap, ◌∙◌, arith, eqb,
  Bool-cases, inl, inr,
}
use keylo.Mfa.Codes.{
  to_ascii_lowercase, without_dashes, is_code_char, normalize_recovery_code, take, drop,
  format_recovery_code,
}

take-drop : (n : ℕ) (s : String) → take n s ⧺ drop n s ≡ s
take-drop zero s = nil-append s
take-drop (suc n) [] = nil-append []
take-drop (suc n) (c ∷ s) = rw (cons-append, take-drop n s) refl

without_dashes-append :
    (s t : String) → without_dashes (s ⧺ t) ≡ without_dashes s ⧺ without_dashes t
without_dashes-append [] t = rw (nil-append, nil-append) refl
without_dashes-append (c ∷ s) t = elim (Bool-cases (eqb (code c) b'-')) [
  | inl dash ↦ rw cons-append (rw dash (without_dashes-append s t))
  | inr other ↦ rw (cons-append c s t) (rw other (rw (cons-append, without_dashes-append s t) refl))
]

all_chars-append :
    (test : ℕ → Bool) (s t : String)
    → all_chars test (s ⧺ t) ≡ (all_chars test s && all_chars test t)
all_chars-append test [] t = rw nil-append refl
all_chars-append test (c ∷ s) t = rw cons-append (ground (arith, all_chars-append test s t))

without_dashes-hex : (s : String) → all_chars is_ascii_hexdigit s ≡ true → without_dashes s ≡ s
without_dashes-hex [] hex = refl
without_dashes-hex (c ∷ s) hex = ground (arith, without_dashes-hex s)

hex-is_code_char :
    (s : String) → all_chars is_ascii_hexdigit s ≡ true → all_chars is_code_char s ≡ true
hex-is_code_char [] hex = refl
hex-is_code_char (c ∷ s) hex = ground (arith, hex-is_code_char s)

-- A cut of the raw code by a dash, after n characters.
cut-plain :
    (n : ℕ) (s tail_ : String)
    → all_chars is_code_char tail_ ≡ true
    → all_chars is_code_char s ≡ true
    → all_chars is_code_char (take n s ⧺ "-" ⧺ tail_) ≡ true
cut-plain zero s tail_ plain is = rw (nil-append, cons-append, nil-append) plain
cut-plain (suc n) [] tail_ plain is = rw (nil-append, cons-append, nil-append) plain
cut-plain (suc n) (c ∷ s) tail_ plain is =
    rw cons-append (ground (arith, cut-plain n s tail_, plain, is))

dash-without_dashes : (t : String) → without_dashes ("-" ⧺ t) ≡ without_dashes t
dash-without_dashes t = rw (cons-append, nil-append) refl

cut-without_dashes :
    (n : ℕ) (s tail_ : String)
    → without_dashes tail_ ≡ without_dashes (drop n s)
    → without_dashes (take n s ⧺ "-" ⧺ tail_) ≡ without_dashes s
cut-without_dashes n s tail_ same =
    without_dashes-append (take n s) ("-" ⧺ tail_)
    ∙ ap (λ t. without_dashes (take n s) ⧺ t) (dash-without_dashes tail_ ∙ same)
    ∙ sym (without_dashes-append (take n s) (drop n s))
    ∙ ap without_dashes (take-drop n s)

drop-nil : (n : ℕ) → drop n [] ≡ []
drop-nil zero = refl
drop-nil (suc n) = refl

drop-drop : (n m k : ℕ) (s : String) → k ≡ n + m → drop m (drop n s) ≡ drop k s
drop-drop zero m k s e = let same : k ≡ m = omega (arith, e) in rw same refl
drop-drop (suc n) m k [] e = rw (drop-nil m, drop-nil k) refl
drop-drop (suc n) m zero (c ∷ s) e = let no : ⊥ = omega (arith, e) in elim no [ ]
drop-drop (suc n) m (suc k) (c ∷ s) e = drop-drop n m k s (omega (arith, e))

drop-plain :
    (n : ℕ) (s : String)
    → all_chars is_code_char s ≡ true
    → all_chars is_code_char (drop n s) ≡ true
drop-plain zero s plain = plain
drop-plain (suc n) [] plain = refl
drop-plain (suc n) (c ∷ s) plain = drop-plain n s (ground (arith, plain))

-- A code of 32 hexadecimal digits that is formatted for display is read back as itself, in lower
-- case.
pub normalize-format :
    (raw : String)
    → IsHex32 raw
    → normalize_recovery_code (format_recovery_code raw) ≡ some (to_ascii_lowercase raw)
unfolding normalize_recovery_code format_recovery_code
normalize-format raw (len, hex) =
    let plain = hex-is_code_char raw hex in
    let third =
      cut-plain 8 (drop 16 raw) (drop 24 raw) (drop-plain 24 raw plain) (drop-plain 16 raw plain) in
    let last_ = take 8 (drop 16 raw) ⧺ "-" ⧺ drop 24 raw in
    let second = cut-plain 8 (drop 8 raw) last_ third (drop-plain 8 raw plain) in
    let first = cut-plain 8 raw (take 8 (drop 8 raw) ⧺ "-" ⧺ last_) second plain in
    let bare : without_dashes (format_recovery_code raw) ≡ raw =
      cut-without_dashes 8 raw _ (
        cut-without_dashes 8 (drop 8 raw) _ (
          cut-without_dashes 8 (drop 16 raw) (drop 24 raw)
            (ap without_dashes (sym (drop-drop 16 8 24 raw (omega arith))))
          ∙ ap without_dashes (sym (drop-drop 8 8 16 raw (omega arith)))))
      ∙ without_dashes-hex raw hex in
    rw (first, bare) (ground (arith, len, hex))
