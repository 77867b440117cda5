-- ===== src/Relay/Phase/Landing.antt =====
-- Where a case of research/gate/cmd/relay-uring/main.go leaves its connection.
use flash_relay.Base.{
  ℕ, ◌+◌, ◌-◌, ◌≤◌, ◌≡◌, refl, inl, inr, false, Option, none, some, arith, Bool-cases, ◌==◌, leb,
}
use flash_relay.Base.Table.{lookup, entries}
use flash_relay.Relay.State.{Conn, RelayCfg, Relay}
use flash_relay.Relay.Actions.{close_conn, fds_to_close}
use flash_relay.Relay.Cases.{close_found, count_err}
use flash_relay.Relay.Acts.{Acts, first_then}
use flash_relay.Relay.Acts.Moves.{Acts-note}
use flash_relay.Relay.Acts.Closing.{shut, Acts-close_conn, Acts-close_found, named_of}
use flash_relay.Relay.Phase.{Phase, IsShut}

-- The case acts for the id, and the entry is in phase with what was in flight and what it added.
pub record Lands (cfg : RelayCfg) (cid : ℕ) (u v : Relay) (p l k : ℕ) : Type 0 where
  pub entry : Option Conn
  pub more_pending : ℕ
  pub more_relaying : ℕ
  pub more_closing : ℕ
  pub acts : Acts cfg cid u v entry more_pending more_relaying more_closing
  pub phase : Phase cfg entry (p + more_pending) (l + more_relaying) (k + more_closing)

-- Closing lands where nothing is pending and no close is in flight yet.
shut-Phase :
    (cfg : RelayCfg) (c : Conn) (p l k : ℕ)
    → p ≡ 0
    → k ≡ 0
    → (cfg.duplex ≡ false → l ≡ 0)
    → Phase cfg (shut c) (p + 0) (l + 0) (k + fds_to_close c)
shut-Phase cfg c p l k e f plain = elim (Bool-cases (fds_to_close c == 0)) [
  | inl zero_left ↦
      rw zero_left (omega arith, ground (arith, zero_left), λ d. omega (arith, plain d))
  | inr more ↦ rw more (
      inr (
        inr (record {
          gone = refl;
          no_pending = omega arith;
          closes = omega arith;
          some_left = ground (arith, more);
          plain = λ d. omega (arith, plain d);
        })))
]

module _ (cfg : RelayCfg) (c old : Conn) (w : Relay) (found : lookup c.id w.conns ≡ some old)
    (once : entries c.id w.conns ≤ 1) (named : old.id ≡ c.id) (going : c.closing ≡ false)
    (p l k : ℕ) (no_pending : p ≡ 0) (no_close : k ≡ 0) (plain : cfg.duplex ≡ false → l ≡ 0) where
  pub close_conn-Lands : Lands cfg c.id w (close_conn cfg c w) p l k
  close_conn-Lands = record {
    entry = shut c;
    more_pending = 0;
    more_relaying = 0;
    more_closing = fds_to_close c;
    acts = Acts-close_conn cfg c old w found once named going;
    phase = shut-Phase cfg c p l k no_pending no_close plain;
  }

-- What acts before a landing.
pub before :
    {cfg : RelayCfg} {cid : ℕ} {u v w : Relay} {o : Option Conn} {p l k : ℕ}
    → Acts cfg cid u v o 0 0 0
    → Lands cfg cid v w p l k
    → Lands cfg cid u w p l k
before h k = record {
  entry = k.entry;
  more_pending = k.more_pending;
  more_relaying = k.more_relaying;
  more_closing = k.more_closing;
  acts = first_then h k.acts;
  phase = k.phase;
}

-- A failure is counted before the close.
pub failed-Lands :
    (cfg : RelayCfg) (c : Conn) (w : Relay) (p l k : ℕ)
    → lookup c.id w.conns ≡ some c
    → entries c.id w.conns ≤ 1
    → c.closing ≡ false
    → p ≡ 0
    → k ≡ 0
    → (cfg.duplex ≡ false → l ≡ 0)
    → Lands cfg c.id w (close_conn cfg c (count_err w)) p l k
failed-Lands cfg c w p l k found once going e f plain =
    before
      (Acts-note cfg c.id w (some c) found (λ x. named_of c x refl) w.calls (count_err w).errs
        w.completed w.g_completed)
      (close_conn-Lands cfg c c (count_err w) found once refl going p l k e f plain)

-- A close of a connection that is closing arrives.
pub close_found-Lands :
    (cfg : RelayCfg) (c : Conn) (w : Relay) (p l k : ℕ)
    → lookup c.id w.conns ≡ some c
    → entries c.id w.conns ≤ 1
    → IsShut cfg c p l (k + 1)
    → Lands cfg c.id w (close_found cfg c.id c w) p l k
close_found-Lands cfg c w p l k found once h =
    let moved = Acts-close_found cfg c w found once in
    elim (Bool-cases (leb (c.closes_left - 1) 0)) [
      | inl last ↦ record {
        entry = none;
        more_pending = 0;
        more_relaying = 0;
        more_closing = 0;
        acts = rw last at moved;
        phase = (
          omega (arith, h.no_pending),
          ground (arith, last, h.closes),
          λ d. omega (arith, h.plain d),
        );
      }
      | inr more ↦ record {
        entry = some (record c { closes_left = c.closes_left - 1 });
        more_pending = 0;
        more_relaying = 0;
        more_closing = 0;
        acts = rw more at moved;
        phase = inr (
            inr (record {
              gone = h.gone;
              no_pending = omega (arith, h.no_pending);
              closes = omega (arith, h.closes);
              some_left = ground (arith, more);
              plain = λ d. omega (arith, h.plain d);
            }));
      }
    ]
