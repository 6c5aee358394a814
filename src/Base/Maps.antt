-- ===== src/Base/Maps.antt =====
-- A `HashMap` with text keys, as the function that looks a key up: the program never walks one in
-- an order that shows.
use Prim.Native.String.{String}
use mathlib.Core.Path.{◌≡◌}
use mathlib.Core.Bool.{Bool}
use mathlib.Core.Option.{Option, none, some}
use native.Mathlib.Omega.{arith}
use text.Mathlib.Text.{◌==◌}
use text.Mathlib.TextPositions.{eq_refl}
use keylo.Base.Tests.{if◌then◌else◌}

abbrev pub StrMap {ℓ} : Type ℓ → Type ℓ
StrMap V = String → Option V

module _ {ℓ} {V : Type ℓ} where
  abbrev pub empty : StrMap V
  empty k = none

  abbrev pub insert : String → V → StrMap V → StrMap V
  insert k v m j = if k == j then some v else m j

  abbrev pub remove : String → StrMap V → StrMap V
  remove k m j = if k == j then none else m j

  abbrev pub keep_if : (V → Bool) → Option V → Option V
  keep_if keep none = none
  keep_if keep (some v) = if keep v then some v else none

  -- `HashMap::retain`, for a test that reads the value only.
  abbrev pub retain_values : (V → Bool) → StrMap V → StrMap V
  retain_values keep m j = keep_if keep (m j)

  pub insert_self : (k : String) (v : V) (m : StrMap V) → insert k v m k ≡ some v
  insert_self k v m = ground (arith, eq_refl k)
