-- ===== src/Prelude/Lists.antt =====
-- Lists measured by native numbers, membership of a number, and one point of a function changed.
use Prim.Native.Nat.{ℕ, suc, ◌+◌}
use mathlib.Core.Path.{◌≡◌}
use mathlib.Core.Logic.{inl, inr}
use mathlib.Core.Bool.{Bool, false, ◌||◌}
use mathlib.Core.List.{List, [], ◌∷◌, ◌++◌}
use native.Mathlib.Omega.{arith}
use concurrent_computing.Prelude.Tests.{◌==◌, if◌then◌else◌, Bool-cases, ==→eq}

module _ {ℓ} {A : Type ℓ} where
  abbrev pub length : List A → ℕ
  length [] = 0
  length (x ∷ xs) = suc (length xs)

  pub length-append : (xs ys : List A) → length (xs ++ ys) ≡ length xs + length ys
  length-append [] ys = omega arith
  length-append (x ∷ xs) ys = omega (arith, length-append xs ys)

  abbrev pub update : (ℕ → A) → ℕ → A → ℕ → A
  update f i a j = if i == j then a else f j

  -- What holds of the new value at its place, and of the old ones elsewhere.
  pub update_at {κ} :
      (P : A → Type κ) (f : ℕ → A) (i : ℕ) (a : A) (j : ℕ)
      → (i ≡ j → P a)
      → P (f j)
      → P (update f i a j)
  update_at P f i a j new old = elim (Bool-cases (i == j)) [
    | inl e ↦ rw e (new (==→eq i j e))
    | inr e ↦ rw e old
  ]

abbrev pub elem : ℕ → List ℕ → Bool
elem a [] = false
elem a (x ∷ xs) = (a == x) || elem a xs
