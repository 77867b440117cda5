-- ===== src/Gate/Init.antt =====
-- research/gate/internal/hook/hook.go: `Init`, which reads the list of upstreams.
pub mod Lists
use flash_relay.Base.{
  ℕ, ◌<◌, Bool, List, [], ◌∷◌, ◌++◌, Option, none, some, ◌==◌, if◌then◌else◌, length, arith,
  if-rule,
}
use flash_relay.Base.Int.{ℤ}
use flash_relay.Gate.Sink.{SinkTarget, Config}

pub data InitError : Type 0 where
  bad_port not_an_ip : List ℕ → InitError

pub data Init : Type 0 where
  failed : InitError → Init
  targets : List SinkTarget → Init

-- `strings.TrimSpace`, `net.SplitHostPort`, `strconv.Atoi` and whether `net.ParseIP` accepts.
module _ (trim : List ℕ → List ℕ) (split : List ℕ → Option (List ℕ × List ℕ))
    (atoi : List ℕ → Option ℤ) (is_ip : List ℕ → Bool) where
  -- The end of one round: the address is checked, and the target is added.
  abbrev pub check_ip : List ℕ → List ℕ → ℤ → List SinkTarget → Init
  check_ip entry ip base ts =
      if is_ip ip
      then targets (ts ++ record { ip = ip; base = base } ∷ [])
      else failed (not_an_ip entry)

  -- One round of the loop, for an entry that is not blank.
  abbrev pub entry_target : ℤ → List ℕ → List SinkTarget → Init
  entry_target port entry ts = elim (split entry) [
    | none ↦ check_ip entry entry port ts
    | some hp ↦ elim (atoi hp.1) [
      | none ↦ failed (bad_port entry)
      | some n ↦ check_ip entry hp.0 n ts
    ]
  ]

  unfoldable pub read_targets : ℤ → List (List ℕ) → List SinkTarget → Init
  read_targets port [] ts = targets ts
  read_targets port (e ∷ es) ts =
      let entry = trim e in
      let blank = read_targets port es ts in
      if length entry == 0 then blank else elim (entry_target port entry ts) [
        | failed x ↦ failed x
        | targets more ↦ read_targets port es more
      ]

  -- `Init`, for the configured list; where it gives nothing the single target stands.
  unfoldable pub init : Config → List (List ℕ) → Init
  init c sink_ips = elim (read_targets c.sink_port sink_ips []) [
    | failed x ↦ failed x
    | targets ts ↦
        if length ts == 0
        then targets (record { ip = c.sink_ip; base = c.sink_port } ∷ [])
        else targets ts
  ]
