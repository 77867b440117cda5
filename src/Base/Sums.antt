-- ===== src/Base/Sums.antt =====
-- Sums over a list by a weight, and the list without one element.
use mathlib.Core.Path.{◌≡◌, refl}
use mathlib.Core.List.{List, [], ◌∷◌, ◌++◌}
use mathlib.Core.Option.{some}
use native.Mathlib.Omega.{arith}
use Prim.Native.Nat.{ℕ, zero, suc, ◌+◌}
use flash_relay.Base.Lists.{get_elem?}

module _ {ℓ} {A : Type ℓ} where
  unfoldable pub tally : (A → ℕ) → List A → ℕ
  tally weight [] = 0
  tally weight (r ∷ rs) = weight r + tally weight rs

  -- The list without the element at an index.
  unfoldable pub remove_at : ℕ → List A → List A
  remove_at i [] = []
  remove_at zero (x ∷ xs) = xs
  remove_at (suc i) (x ∷ xs) = x ∷ remove_at i xs

module _ {ℓ} {A : Type ℓ} (weight : A → ℕ) where
  pub tally-cons : (r : A) (rs : List A) → tally weight (r ∷ rs) ≡ weight r + tally weight rs
  unfolding tally
  tally-cons r rs = refl

  pub tally-append : (xs ys : List A) → tally weight (xs ++ ys) ≡ tally weight xs + tally weight ys
  unfolding tally
  tally-append [] ys = omega arith
  tally-append (x ∷ xs) ys = omega (arith, tally-append xs ys)

  pub tally-remove_at :
      (i : ℕ) (r : A) (rs : List A)
      → get_elem? rs i ≡ some r
      → tally weight (remove_at i rs) + weight r ≡ tally weight rs
  unfolding tally remove_at
  tally-remove_at i r [] h = ground arith
  tally-remove_at zero r (x ∷ rs) h = ground arith
  tally-remove_at (suc i) r (x ∷ rs) h = ground (arith, tally-remove_at i r rs)
