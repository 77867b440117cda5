-- ===== src/Worker/Stats.antt =====
-- flashrelay/flashrelay.go: `Stats` and `Stat`; flashrelay/worker.go: `peerOf`.
use flash_relay.Base.{ℕ, ◌%◌, List, Option, none, some}
use flash_relay.Worker.State.{Counters}

pub record Stats : Type 0 where
  pub accepted : ℕ
  pub completed : ℕ
  pub rejected : ℕ
  pub shed : ℕ
  pub idle_closed : ℕ
  pub errors : ℕ
  pub bytes_c2u : ℕ
  pub bytes_u2c : ℕ
  pub live_conns : ℕ
  pub cq_overflow : ℕ

-- Each load is atomic on its own; here they see the same counters.
unfoldable pub stat : Counters → Stats
stat c = record {
  accepted = c.accepted;
  completed = c.completed;
  rejected = c.rejected;
  shed = c.shed;
  idle_closed = c.idle_closed;
  errors = c.errors;
  bytes_c2u = c.bytes_c2u;
  bytes_u2c = c.bytes_u2c;
  live_conns = c.live;
  cq_overflow = c.cq_overflow;
}

-- The answer of `getpeername`, as the syscall package decodes it.
pub data Sockaddr : Type 0 where
  inet4 inet6 : List ℕ → ℕ → Sockaddr
  other : Sockaddr

-- `netip.AddrPort`; the zero value is no address.
pub data AddrPort : Type 0 where
  no_address : AddrPort
  addr_port : List ℕ → ℕ → AddrPort

-- `none` where `getpeername` fails.
unfoldable pub peer_of : Option Sockaddr → AddrPort
peer_of none = no_address
peer_of (some (inet4 addr port)) = addr_port addr (port % 65536)
peer_of (some (inet6 addr port)) = addr_port addr (port % 65536)
peer_of (some other) = no_address
