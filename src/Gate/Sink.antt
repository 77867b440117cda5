-- ===== src/Gate/Sink.antt =====
-- research/gate/internal/hook/hook.go: the choice of the upstream for each dial.
use native.Mathlib.Nat.{div-add-mod, mod-lt, mul-le-mul_left, mul-add}
use flash_relay.Base.{
  ℕ, ◌+◌, ◌*◌, ◌/◌, ◌%◌, ◌<◌, ◌≡◌, ◌≢◌, ap, ◌&&◌, List, [], Option, none, some, ltb, ltb→lt, ◌==◌,
  if◌then◌else◌, length, get_or, arith, inl, inr, Bool-cases,
}
use flash_relay.Base.Int.{ℤ, pos, is_pos, pos_part, add_ℕ}
use flash_relay.Base.Words.{add64}
use flash_relay.Base.Modulo.{mod_apart}

pub record SinkTarget : Type 0 where
  pub ip : List ℕ
  pub base : ℤ

-- The fields of `Config` that the choice reads; `dial_seq` is `none` where it is nil.
pub record Config : Type 0 where
  pub sink_ip : List ℕ
  pub sink_port : ℤ
  pub sink_ports : ℤ
  pub dial_seq : Option ℕ
  pub targets : List SinkTarget

-- The ports of the span, at least one.
abbrev pub n_ports : Config → ℕ
n_ports c = if is_pos c.sink_ports then pos_part c.sink_ports else 1

-- The target and the port's offset for a value of the counter.
abbrev pub grid : ℕ → ℕ → ℕ → ℕ × ℕ
grid hosts ports n = (n % hosts, (n / hosts) % ports)

abbrev pub no_target : SinkTarget
no_target = record { ip = []; base = pos 0 }

-- The destination, and the configuration with its counter moved.
unfoldable pub sink_target_for : Config → (List ℕ × ℤ) × Config
sink_target_for c =
    let hosts = length c.targets in
    let ports = n_ports c in
    let first = get_or c.targets 0 no_target in
    if hosts == 0 then ((c.sink_ip, c.sink_port), c) else elim c.dial_seq [
      | none ↦ ((first.ip, first.base), c)
      | some seq ↦
          if hosts == 1 && ports == 1
          then ((first.ip, first.base), c)
          else let n = add64 seq 1 in
            let t = get_or c.targets (grid hosts ports n).0 no_target in
            ((t.ip, add_ℕ t.base (grid hosts ports n).1), record c { dial_seq = some n })
    ]

-- The dials of one round over the grid go to different places, and each place is within the grid.
pub grid_apart :
    (hosts ports m n : ℕ)
    → 0 < hosts
    → 0 < ports
    → m < n
    → n < m + hosts * ports
    → ((grid hosts ports m).0 < hosts)
      × ((grid hosts ports m).1 < ports)
      × (grid hosts ports m ≢ grid hosts ports n)
grid_apart hosts ports m n some_host some_port less near =
    (mod-lt m some_host, mod-lt (m / hosts) some_port, apart)
  where
    apart : grid hosts ports m ≢ grid hosts ports n
    apart same =
        let host : m % hosts ≡ n % hosts = ap (λ (p : ℕ × ℕ). p.0) same in
        let port : (m / hosts) % ports ≡ (n / hosts) % ports = ap (λ (p : ℕ × ℕ). p.1) same in
        let dm = div-add-mod m hosts in
        let dn = div-add-mod n hosts in
        let a = m / hosts in
        let b = n / hosts in
        elim (Bool-cases (ltb a b)) [
          | inr down ↦
              omega (arith, dm, dn, host, mul-le-mul_left {m = b} {n = a} hosts (ground arith))
          | inl up ↦ elim (Bool-cases (ltb b (a + ports))) [
            | inl close ↦ mod_apart ports a b (ltb→lt a b up) (ltb→lt b (a + ports) close) port
            | inr far ↦ omega (
              arith,
              dm,
              dn,
              host,
              mul-add hosts a ports,
              mul-le-mul_left {m = a + ports} {n = b} hosts (ground arith),
            )
          ]
        ]
