-- ===== src/Prelude/Lists.antt =====
-- Arrays as lists indexed by native numbers, and function-valued tables (a fixed C++ array read and
-- written by index).
use Prim.Native.Nat.{ℕ, zero, suc, ◌+◌}
use mathlib.Core.Path.{◌≡◌}
use mathlib.Core.Logic.{◌≢◌}
use mathlib.Core.List.{List, [], ◌∷◌, ◌++◌}
use native.Mathlib.Omega.{arith}
use Prim.Native.Nat.{compare, Ordering}

module _ {ℓ} {A : Type ℓ} where
  abbrev pub length : List A → ℕ
  length [] = 0
  length (x ∷ xs) = suc (length xs)

  abbrev pub get_or : List A → ℕ → A → A
  get_or [] i d = d
  get_or (x ∷ xs) zero d = x
  get_or (x ∷ xs) (suc i) d = get_or xs i d

  abbrev pub drop : ℕ → List A → List A
  drop zero xs = xs
  drop (suc n) [] = []
  drop (suc n) (x ∷ xs) = drop n xs

  pub length-append : (xs ys : List A) → length (xs ++ ys) ≡ length xs + length ys
  length-append [] ys = omega arith
  length-append (x ∷ xs) ys = omega (arith, length-append xs ys)

  -- An array as a function of its index: `a[i] = v`.
  abbrev pub update : (ℕ → A) → ℕ → A → ℕ → A
  update f i v j = elim (compare j i) [ Ordering.eq ↦ v | _ ↦ f j ]

  pub update_same : (f : ℕ → A) (i : ℕ) (v : A) → update f i v i ≡ v
  update_same f i v = ground arith

  pub update_other : (f : ℕ → A) (i j : ℕ) (v : A) → j ≢ i → update f i v j ≡ f j
  update_other f i j v h = ground arith
