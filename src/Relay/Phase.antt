-- ===== src/Relay/Phase.antt =====
-- The life of one connection of research/gate/cmd/relay-uring/main.go: one thing outstanding up to the
-- relay in both directions, then that relay's requests, and its closes at the end.
pub mod Landing
pub mod Takeover
pub mod Starts
pub mod Relays
use flash_relay.Base.{ℕ, ◌+◌, ◌≤◌, ◌<◌, ◌≡◌, ◌⊎◌, inl, inr, true, false, Option, none, some, arith}
use flash_relay.Base.Int.{is_pos}
use flash_relay.Relay.State.{Pipe, Conn, RelayCfg}
use flash_relay.Relay.Acts.Closing.{bit}

-- The ends of its pipes that a connection holds.
abbrev pub ends : Pipe → ℕ
ends p = bit (is_pos p.read_end) + bit (is_pos p.write_end)

abbrev pub pipe_ends : Conn → ℕ
pipe_ends c = ends c.c2u_pipe + ends c.u2c_pipe

-- Before the relay: a request, a job or a decision, one in all.
pub record IsStarting (c : Conn) (pending relaying closing : ℕ) : Type 0 where
  pub going : c.closing ≡ false
  pub one : pending ≡ 1
  pub no_relay : relaying ≡ 0
  pub no_close : closing ≡ 0
  pub no_pipes : pipe_ends c ≡ 0

-- The relay in both directions, which is only there in duplex mode.
pub record IsRelaying (cfg : RelayCfg) (c : Conn) (pending closing : ℕ) : Type 0 where
  pub going : c.closing ≡ false
  pub no_pending : pending ≡ 0
  pub no_close : closing ≡ 0
  pub both : cfg.duplex ≡ true

-- The closes of its fds are in flight. Only a relay in both directions leaves other requests over.
pub record IsShut (cfg : RelayCfg) (c : Conn) (pending relaying closing : ℕ) : Type 0 where
  pub gone : c.closing ≡ true
  pub no_pending : pending ≡ 0
  pub closes : closing ≡ c.closes_left
  pub some_left : 0 < c.closes_left
  pub plain : cfg.duplex ≡ false → relaying ≡ 0

abbrev pub Phase : RelayCfg → Option Conn → ℕ → ℕ → ℕ → Type 0
Phase cfg none pending relaying closing =
    (pending ≡ 0) × (closing ≡ 0) × (cfg.duplex ≡ false → relaying ≡ 0)
Phase cfg (some c) pending relaying closing =
    IsStarting c pending relaying closing
    ⊎ (IsRelaying cfg c pending closing ⊎ IsShut cfg c pending relaying closing)
