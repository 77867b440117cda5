-- ===== src/Gate/Storm.antt =====
-- research/gate/internal/storm/storm.go: `ExpandTargets`, which reads the span of ports of a target.
pub mod Spans
use flash_relay.Base.{
  ℕ, zero, suc, ◌+◌, ◌-◌, ◌≤◌, ◌<◌, ◌≡◌, ◌∙◌, refl, sym, ap, inl, inr, Bool, true, false, List, [],
  ◌∷◌, ◌++◌, Option, none, some, ltb, ◌==◌, if◌then◌else◌, length, arith, if-rule, Bool-cases,
  Option-cases,
}
use mathlib.Core.List.{append_assoc}
use flash_relay.Base.Int.{ℤ, pos, negsuc, add_ℕ, ltb_ℤ, pos_part, neg_part}

-- `p++` on an int of 64 bits
abbrev pub int_succ : ℤ → ℤ
int_succ p = if pos_part p == 9223372036854775807 then negsuc 9223372036854775807 else add_ℕ p 1

-- The text before the first '-' and that behind it.
abbrev pub cut_dash : List ℕ → Option (List ℕ × List ℕ)
cut_dash [] = none
cut_dash (c ∷ cs) =
    let rest = cut_dash cs in
    if c == 45
    then some ([], cs)
    else elim rest [ none ↦ none | some parts ↦ some (c ∷ parts.0, parts.1) ]

-- `lo` and `hi`: a port without a '-' is both.
abbrev pub ends : List ℕ → List ℕ × List ℕ
ends port = elim (cut_dash port) [ none ↦ (port, port) | some parts ↦ parts ]

pub data Expanded : Type 0 where
  expanded : List (List ℕ) → Expanded
  empty_target bad_target : Expanded
  bad_port : List ℕ → Expanded
  backwards : ℤ → ℤ → Expanded

-- `net.JoinHostPort(host, strconv.Itoa(p))`
module _ (address : List ℕ → ℤ → List ℕ) where
  -- The loop over the ports from p to b; `none` where the fuel does not last.
  unfoldable pub span_ports : ℕ → List ℕ → ℤ → ℤ → List (List ℕ) → Option (List (List ℕ))
  span_ports zero host p b acc = none
  span_ports (suc fuel) host p b acc =
      let more = span_ports fuel host (int_succ p) b (acc ++ address host p ∷ []) in
      if ltb_ℤ b p then some acc else more

  -- n addresses, the ports counted from a.
  abbrev pub addresses : List ℕ → ℤ → ℕ → List (List ℕ)
  addresses host a zero = []
  addresses host a (suc n) = address host a ∷ addresses host (add_ℕ a 1) n

-- `strings.TrimSpace`, `net.SplitHostPort` and `strconv.Atoi` as well.
module _ (trim : List ℕ → List ℕ) (split : List ℕ → Option (List ℕ × List ℕ))
    (atoi : List ℕ → Option ℤ) (address : List ℕ → ℤ → List ℕ) where
  abbrev pub expand_span : ℕ → List ℕ → ℤ → ℤ → Option Expanded
  expand_span fuel host a b =
      if ltb_ℤ b a
      then some (backwards a b)
      else elim (span_ports address fuel host a b []) [ none ↦ none | some ts ↦ some (expanded ts) ]

  abbrev pub expand_ports : ℕ → List ℕ → List ℕ × List ℕ → Option Expanded
  expand_ports fuel host parts = elim (atoi parts.0) [
    | none ↦ some (bad_port parts.0)
    | some a ↦ elim (atoi parts.1) [
      | none ↦ some (bad_port parts.1)
      | some b ↦ expand_span fuel host a b
    ]
  ]

  unfoldable pub expand_targets : ℕ → List ℕ → Option Expanded
  expand_targets fuel spec =
      if length (trim spec) == 0 then some empty_target else elim (split (trim spec)) [
        | none ↦ some bad_target
        | some hp ↦ expand_ports fuel hp.0 (ends hp.1)
      ]
