-- ===== src/Tests/Storms.antt =====
-- Runs of the storm generator's reading of its targets at concrete inputs.
use flash_relay.Base.{
  ℕ, ◌+◌, ◌<◌, ◌≡◌, ◌%◌, ap, refl, List, [], ◌∷◌, ◌++◌, Option, none, some, arith,
}
use flash_relay.Base.Int.{ℤ, pos, pos_part}
use flash_relay.Gate.Storm.{Expanded, expanded, ends, span_ports, expand_targets}
use flash_relay.Gate.Storm.Spans.{Expands, expand_targets-Expands}

abbrev as_is : List ℕ → List ℕ
as_is s = s

abbrev all_port : List ℕ → Option (List ℕ × List ℕ)
all_port s = some ([], s)

abbrev digit : List ℕ → Option ℤ
digit [] = none
digit (c ∷ []) = some (pos ((c + 2) % 10))
digit (c ∷ d ∷ cs) = none

abbrev port_or_0 : Option ℤ → ℕ
port_or_0 none = 0
port_or_0 (some z) = pos_part z

abbrev address : List ℕ → ℤ → List ℕ
address host p = host ++ pos_part p ∷ []

digit-small : (t : List ℕ) (b : ℤ) → digit t ≡ some b → pos_part b < 9223372036854775807
digit-small [] b e = omega (arith, ap port_or_0 e)
digit-small (c ∷ []) b e = omega (arith, ap port_or_0 e)
digit-small (c ∷ d ∷ cs) b e = omega (arith, ap port_or_0 e)

-- "2-4"
abbrev two_to_four : List ℕ
two_to_four = 50 ∷ 45 ∷ 52 ∷ []

expand_targets-Expands_example :
    (fuel : ℕ) × (r : Expanded) × (expand_targets as_is all_port digit address fuel two_to_four
      ≡ some r)
    × Expands as_is all_port digit address two_to_four r
expand_targets-Expands_example =
    expand_targets-Expands as_is all_port digit address two_to_four
      (λ host port b _ e. digit-small (ends port).1 b e)

two_to_four-expanded :
    expand_targets as_is all_port digit address 4 two_to_four
    ≡ some (expanded ((2 ∷ []) ∷ (3 ∷ []) ∷ (4 ∷ []) ∷ []))
unfolding expand_targets span_ports
two_to_four-expanded = refl
