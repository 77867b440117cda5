-- ===== src/Base/Table.antt =====
-- Go's maps with numbers for keys, as association lists, with what their operations do to lookups,
-- to the number of entries with a key, and to any sum over the values.
use mathlib.Core.Path.{◌≡◌, refl, subst}
use mathlib.Core.Bool.{Bool, true, false}
use mathlib.Core.List.{List, [], ◌∷◌}
use mathlib.Core.Option.{Option, none, some, some-injective}
use native.Mathlib.Omega.{arith}
use Prim.Native.Nat.{ℕ, ◌+◌, ◌≤◌}
use flash_relay.Base.Lists.{length}
use flash_relay.Base.Tests.{◌==◌, if◌then◌else◌, if-rule}

module _ {ℓ} {V : Type ℓ} where
  unfoldable pub lookup : ℕ → List (ℕ × V) → Option V
  lookup k [] = none
  lookup k (e ∷ m) = if e.0 == k then some e.1 else lookup k m

  unfoldable pub delete : ℕ → List (ℕ × V) → List (ℕ × V)
  delete k [] = []
  delete k ((j, w) ∷ m) = if j == k then m else (j, w) ∷ delete k m

  -- How many entries a key has: one at most in a map.
  unfoldable pub entries : ℕ → List (ℕ × V) → ℕ
  entries k [] = 0
  entries k ((j, w) ∷ m) = (if j == k then 1 else 0) + entries k m

  -- `m[k] = v`: in place where the key stands, or at the end.
  unfoldable pub insert : ℕ → V → List (ℕ × V) → List (ℕ × V)
  insert k v [] = (k, v) ∷ []
  insert k v (e ∷ m) = if e.0 == k then (k, v) ∷ m else e ∷ insert k v m

  pub lookup-insert :
      (key other : ℕ) (x : V) (table : List (ℕ × V))
      → lookup other (insert key x table) ≡ (if key == other then some x else lookup other table)
  unfolding insert lookup
  lookup-insert key other x [] = refl
  lookup-insert key other x (e ∷ rest) = ground (arith, lookup-insert key other x rest)

  pub lookup-eq_none : (k : ℕ) (m : List (ℕ × V)) → entries k m ≡ 0 → lookup k m ≡ none
  unfolding lookup entries
  lookup-eq_none k [] h = refl
  lookup-eq_none k ((i, w) ∷ m) h = ground (arith, lookup-eq_none k m)

  pub lookup-delete :
      (k j : ℕ) (m : List (ℕ × V))
      → entries k m ≤ 1
      → lookup j (delete k m) ≡ (if k == j then none else lookup j m)
  unfolding lookup delete entries
  lookup-delete k j [] h = ground arith
  lookup-delete k j ((i, w) ∷ m) h = ground (arith, lookup-delete k j m, lookup-eq_none k m)

  pub entries-insert_found :
      (k j : ℕ) (v old : V) (m : List (ℕ × V))
      → lookup k m ≡ some old
      → entries j (insert k v m) ≡ entries j m
  unfolding lookup entries insert
  entries-insert_found k j v old [] h = ground arith
  entries-insert_found k j v old ((i, w) ∷ m) h = ground (arith, entries-insert_found k j v old m)

  pub entries-insert_new :
      (k j : ℕ) (v : V) (m : List (ℕ × V))
      → lookup k m ≡ none
      → entries j (insert k v m) ≡ (if k == j then 1 else 0) + entries j m
  unfolding lookup entries insert
  entries-insert_new k j v [] h = ground arith
  entries-insert_new k j v ((i, w) ∷ m) h = ground (arith, entries-insert_new k j v m)

  pub entries-delete_le : (k j : ℕ) (m : List (ℕ × V)) → entries j (delete k m) ≤ entries j m
  unfolding entries delete
  entries-delete_le k j [] = omega arith
  entries-delete_le k j ((i, w) ∷ m) = ground (arith, entries-delete_le k j m)

  pub length-insert_found :
      (k : ℕ) (v old : V) (m : List (ℕ × V))
      → lookup k m ≡ some old
      → length (insert k v m) ≡ length m
  unfolding lookup insert
  length-insert_found k v old [] h = ground arith
  length-insert_found k v old ((i, w) ∷ m) h = ground (arith, length-insert_found k v old m)

  pub length-insert_le : (k : ℕ) (v : V) (m : List (ℕ × V)) → length (insert k v m) ≤ length m + 1
  unfolding insert
  length-insert_le k v [] = omega arith
  length-insert_le k v ((i, w) ∷ m) = ground (arith, length-insert_le k v m)

  pub length-delete_le : (k : ℕ) (m : List (ℕ × V)) → length (delete k m) ≤ length m
  unfolding delete
  length-delete_le k [] = omega arith
  length-delete_le k ((i, w) ∷ m) = ground (arith, length-delete_le k m)

module _ {ℓ} {V : Type ℓ} (weight : V → ℕ) where
  unfoldable pub total : List (ℕ × V) → ℕ
  total [] = 0
  total ((j, v) ∷ m) = weight v + total m

  pub total-insert_found :
      (k : ℕ) (v old : V) (m : List (ℕ × V))
      → lookup k m ≡ some old
      → total (insert k v m) + weight old ≡ total m + weight v
  unfolding total lookup insert
  total-insert_found k v old [] h = ground arith
  total-insert_found k v old ((i, w) ∷ m) h = ground (arith, total-insert_found k v old m)

  pub total-insert_new :
      (k : ℕ) (v : V) (m : List (ℕ × V))
      → lookup k m ≡ none
      → total (insert k v m) ≡ total m + weight v
  unfolding total lookup insert
  total-insert_new k v [] h = ground arith
  total-insert_new k v ((i, w) ∷ m) h = ground (arith, total-insert_new k v m)

  pub total-delete :
      (k : ℕ) (old : V) (m : List (ℕ × V))
      → lookup k m ≡ some old
      → total (delete k m) + weight old ≡ total m
  unfolding total lookup delete
  total-delete k old [] h = ground arith
  total-delete k old ((i, w) ∷ m) h = ground (arith, total-delete k old m)

  pub le_total-lookup :
      (k : ℕ) (v : V) (m : List (ℕ × V)) → lookup k m ≡ some v → weight v ≤ total m
  unfolding total lookup
  le_total-lookup k v [] h = ground arith
  le_total-lookup k v ((i, w) ∷ m) h = ground (arith, le_total-lookup k v m)

-- What holds of every value of a map.
module _ {ℓ κ} {V : Type ℓ} (P : V → Type κ) where
  abbrev pub EachValue : List (ℕ × V) → Type κ
  EachValue [] = Unit
  EachValue ((j, v) ∷ m) = P v × EachValue m

  pub EachValue-lookup :
      (k : ℕ) (v : V) (m : List (ℕ × V)) → EachValue m → lookup k m ≡ some v → P v
  unfolding lookup
  EachValue-lookup k v [] all h = ground arith
  EachValue-lookup k v ((j, w) ∷ m) all h = by_key (j == k) (EachValue-lookup k v m all.1) h
    where
      by_key :
          (b : Bool)
          → (lookup k m ≡ some v → P v)
          → (if b then some w else lookup k m) ≡ some v
          → P v
      by_key true later e = subst P (some-injective w v e) all.0
      by_key false later e = later e

  pub EachValue-insert :
      (k : ℕ) (v : V) (m : List (ℕ × V)) → P v → EachValue m → EachValue (insert k v m)
  unfolding insert
  EachValue-insert k v [] h all = (h, tt)
  EachValue-insert k v ((j, w) ∷ m) h all =
      if-rule EachValue (j == k) (λ _. (h, all.1)) (λ _. (all.0, EachValue-insert k v m h all.1))

  pub EachValue-delete : (k : ℕ) (m : List (ℕ × V)) → EachValue m → EachValue (delete k m)
  unfolding delete
  EachValue-delete k [] all = tt
  EachValue-delete k ((j, w) ∷ m) all =
      if-rule EachValue (j == k) (λ _. all.1) (λ _. (all.0, EachValue-delete k m all.1))
