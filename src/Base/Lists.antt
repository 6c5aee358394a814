-- ===== src/Base/Lists.antt =====
-- Lists measured by native numbers, under the library's names.
use Prim.Native.Nat.{ℕ, suc, ◌+◌, ◌≤◌}
use mathlib.Core.Path.{◌≡◌, refl}
use mathlib.Core.Bool.{Bool, true, false, not, ◌||◌}
use mathlib.Core.Option.{Option, none, some}
use mathlib.Core.Logic.{inl, inr}
use mathlib.Core.List.{Memᴰ, List, [], ◌∷◌, ◌++◌}
use native.Mathlib.Omega.{arith}
use keylo.Base.Tests.{Bool-cases, if◌then◌else◌}

module _ {ℓ} {A : Type ℓ} where
  abbrev pub length : List A → ℕ
  length [] = 0
  length (x ∷ xs) = suc (length xs)

  -- `retain`
  abbrev pub retain : (A → Bool) → List A → List A
  retain keep [] = []
  retain keep (x ∷ xs) = let rest = retain keep xs in if keep x then x ∷ rest else rest

  -- `iter().any`
  abbrev pub any : (A → Bool) → List A → Bool
  any test [] = false
  any test (x ∷ xs) = test x || any test xs

  -- How many items pass a test.
  abbrev pub count : (A → Bool) → List A → ℕ
  count test [] = 0
  count test (x ∷ xs) = (if test x then 1 else 0) + count test xs

  -- `iter().find`
  abbrev pub find : (A → Bool) → List A → Option A
  find test [] = none
  find test (x ∷ xs) = let rest = find test xs in if test x then some x else rest

  pub length-append : (xs ys : List A) → length (xs ++ ys) ≡ length xs + length ys
  length-append [] ys = omega arith
  length-append (x ∷ xs) ys = omega (arith, length-append xs ys)

  pub count-append :
      (test : A → Bool) (xs ys : List A) → count test (xs ++ ys) ≡ count test xs + count test ys
  count-append test [] ys = omega arith
  count-append test (x ∷ xs) ys = omega (arith, count-append test xs ys)

  pub count-le-length : (test : A → Bool) (xs : List A) → count test xs ≤ length xs
  count-le-length test [] = omega arith
  count-le-length test (x ∷ xs) = ground (arith, count-le-length test xs)

  pub any-append :
      (test : A → Bool) (xs ys : List A) → any test (xs ++ ys) ≡ (any test xs || any test ys)
  any-append test [] ys = refl
  any-append test (x ∷ xs) ys = ground (arith, any-append test xs ys)

-- UPDATE … SET change WHERE test
abbrev pub update_where {ℓ} : {A : Type ℓ} → (A → Bool) → (A → A) → List A → List A
update_where test change [] = []
update_where test change (x ∷ xs) = (if test x then change x else x) ∷ update_where test change xs

module _ {ℓ} {A : Type ℓ} where
  -- An UPDATE of columns that a test does not read.
  pub find-update_where :
      (test where_ : A → Bool) (change : A → A)
      → ((x : A) → test (change x) ≡ test x)
      → (xs : List A) (x : A) → find test xs ≡ some x
      → find test (update_where where_ change xs) ≡ some (if where_ x then change x else x)
  find-update_where test where_ change same [] x found = cc
  find-update_where test where_ change same (y ∷ ys) x found =
      ground (arith, same y, find-update_where test where_ change same ys x, found)

  pub any-update_where :
      (test where_ : A → Bool) (change : A → A)
      → ((x : A) → test (change x) ≡ test x)
      → (xs : List A) → any test (update_where where_ change xs) ≡ any test xs
  any-update_where test where_ change same [] = refl
  any-update_where test where_ change same (y ∷ ys) =
      ground (arith, same y, any-update_where test where_ change same ys)

  -- The first row that passes is the same with more rows behind it.
  pub find-append :
      (test : A → Bool) (xs ys : List A) (x : A)
      → find test xs ≡ some x
      → find test (xs ++ ys) ≡ some x
  find-append test [] ys x found = cc
  find-append test (y ∷ xs) ys x found = ground (arith, find-append test xs ys x, found)

  pub find-append_last :
      (test : A → Bool) (xs : List A) (x : A)
      → any test xs ≡ false
      → test x ≡ true
      → find test (xs ++ x ∷ []) ≡ some x
  find-append_last test [] x none_ passes = ground (arith, passes)
  find-append_last test (y ∷ xs) x none_ passes =
      ground (arith, find-append_last test xs x, none_, passes)

  -- An UPDATE leaves the rows that it does not reach.
  pub retain-update_where :
      (where_ : A → Bool) (change : A → A)
      → ((x : A) → where_ (change x) ≡ where_ x)
      → (xs : List A)
      → retain (λ x. not (where_ x)) (update_where where_ change xs)
        ≡ retain (λ x. not (where_ x)) xs
  retain-update_where where_ change same [] = refl
  retain-update_where where_ change same (y ∷ ys) =
      ground (arith, same y, retain-update_where where_ change same ys)

  -- What passes a test is somewhere in the list.
  pub any-Mem :
      (test : A → Bool) (xs : List A) → any test xs ≡ true → (x : A) × Memᴰ x xs × (test x ≡ true)
  any-Mem test [] h = cc
  any-Mem test (y ∷ ys) h = elim (Bool-cases (test y)) [
    | inl passes ↦ (y, Memᴰ.head refl, passes)
    | inr fails ↦
        let (x, there, passes) = any-Mem test ys (ground (arith, h, fails)) in
        (x, Memᴰ.tail there, passes)
  ]
