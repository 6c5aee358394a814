-- ===== src/Base/Results.antt =====
-- `Result`, and signed whole numbers.
use Prim.Native.Nat.{ℕ, zero, suc, ◌+◌, ◌-◌}
use mathlib.Core.Bool.{Bool, true, false}
use mathlib.Core.Path.{◌≡◌, refl}
use mathlib.Core.Option.{Option, none, some}
use native.Mathlib.Omega.{arith}

pub data Result {ℓ} (A E : Type ℓ) : Type ℓ where
  ok : A → Result A E
  err : E → Result A E

infixl 5 ◌>>=◌
-- `?`
abbrev pub ◌>>=◌ {ℓ} : {A B E : Type ℓ} → Result A E → (A → Result B E) → Result B E
ok a >>= f = f a
err e >>= f = err e

-- `map_err`
abbrev pub map_err {ℓ} : {A E F : Type ℓ} → (E → F) → Result A E → Result A F
map_err f (ok a) = ok a
map_err f (err e) = err (f e)

-- `ok_or`
abbrev pub ok_or {ℓ} : {A E : Type ℓ} → E → Option A → Result A E
ok_or e none = err e
ok_or e (some a) = ok a

-- pos n is n, and negsuc n is −(n + 1).
pub data ℤ : Type 0 where
  pos : ℕ → ℤ
  negsuc : ℕ → ℤ

-- `value <= 0`
abbrev pub is_nonpositive : ℤ → Bool
is_nonpositive (pos zero) = true
is_nonpositive (pos (suc n)) = false
is_nonpositive (negsuc n) = true

-- A moment and a span of seconds: moments stop at 0.
abbrev pub add_seconds : ℕ → ℤ → ℕ
add_seconds now (pos n) = now + n
add_seconds now (negsuc n) = now - suc n

-- A chain that succeeds has succeeded in each of its steps.
pub bind-eq-ok :
    {A B E : Type 0} (step : Result A E) (rest : A → Result B E) {y : B}
    → (step >>= rest) ≡ ok y
    → (x : A) × (step ≡ ok x) × (rest x ≡ ok y)
bind-eq-ok (ok x) rest chain = (x, refl, chain)
bind-eq-ok (err e) rest chain = cc

-- What holds of every error, and of every result of the rest of the chain, holds of the chain.
pub bind-holds :
    {A B E : Type 0} (P : Result B E → Type 0)
    → ((e : E) → P (err e))
    → (step : Result A E) (rest : A → Result B E) → ((x : A) → step ≡ ok x → P (rest x))
    → P (step >>= rest)
bind-holds P fails (ok x) rest holds = holds x refl
bind-holds P fails (err e) rest holds = fails e

-- `map_err` and `ok_or` succeed only where there was a value.
pub map_err-eq-ok :
    {A E F : Type 0} (f : E → F) (m : Result A E) {a : A} → map_err f m ≡ ok a → m ≡ ok a
map_err-eq-ok f (ok b) h = ground arith
map_err-eq-ok f (err e) h = cc

pub ok_or-eq-ok : {A E : Type 0} (e : E) (o : Option A) {a : A} → ok_or e o ≡ ok a → o ≡ some a
ok_or-eq-ok e none h = cc
ok_or-eq-ok e (some b) h = ground arith
