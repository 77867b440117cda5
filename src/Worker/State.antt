-- ===== src/Worker/State.antt =====
-- flashrelay/worker.go and flashrelay/flashrelay.go: the data of one worker.
-- Bytes are numbers, a file descriptor is a signed int, and a buffer is the list of its bytes.
use flash_relay.Base.{ℕ, Bool, List}
use flash_relay.Base.Int.{ℤ}
use flash_relay.Bridge.{Bridge}

-- The values of `Config` that a worker reads, after `defaults` (all positive there), with
-- `idleTicks`, which is 0 where the idle timeout is disabled.
pub record Limits : Type 0 where
  pub initial_req_len : ℕ
  pub max_req_len : ℕ
  pub buf_size : ℕ
  pub max_conns : ℕ
  pub accept_batch : ℕ
  pub idle_ticks : ℕ

pub record Conn : Type 0 where
  pub id : ℕ
  pub client_fd : ℤ
  pub upstream_fd : ℤ
  pub req_buf : List ℕ
  pub req_n : ℕ
  pub init_sent : ℕ
  pub reply_buf : List ℕ
  pub reply_off : ℕ
  pub reply_end : ℕ
  pub closing : Bool
  pub closes_left : ℕ
  pub relay_started : Bool
  pub counted : Bool
  pub last_tick : ℕ
  pub c2u_buf : List ℕ
  pub u2c_buf : List ℕ
  pub c2u_off : ℕ
  pub c2u_end : ℕ
  pub u2c_off : ℕ
  pub u2c_end : ℕ
  pub client_read_done : Bool
  pub upstream_read_done : Bool

pub record Job : Type 0 where
  pub id : ℕ
  pub client_fd : ℤ
  pub req : List ℕ

pub record Decision : Type 0 where
  pub upstream_fd : ℤ
  pub reply : List ℕ
  pub reject : Bool
  pub more : Bool
  pub consumed : ℤ

pub record HookResult : Type 0 where
  pub id : ℕ
  pub dec : Decision

-- `atomic.Uint64` each
pub record Counters : Type 0 where
  pub accepted : ℕ
  pub completed : ℕ
  pub rejected : ℕ
  pub shed : ℕ
  pub idle_closed : ℕ
  pub errors : ℕ
  pub bytes_c2u : ℕ
  pub bytes_u2c : ℕ
  pub live : ℕ
  pub cq_overflow : ℕ

-- A prepared submission: what the `Prep` helper gets, with the room of a receive buffer and the
-- bytes of a send. Every one ends in its user_data.
pub data Request : Type 0 where
  accept : ℕ → Request
  read : ℕ → Request
  timer : ℕ → Request
  recv : ℤ → ℕ → ℕ → Request
  send : ℤ → List ℕ → ℕ → Request
  close : ℤ → ℕ → Request

-- A system call that a handler makes directly.
pub data Syscall : Type 0 where
  close_fd : ℤ → Syscall
  shutdown_wr : ℤ → Syscall

-- The locals of `runWorker`, the counters and the bridge, with what the worker has handed to the
-- kernel: `posted` (ring requests, newest first) and `calls` (direct system calls, newest first).
pub record Worker : Type 0 where
  pub conns : List Conn
  pub next_id : ℕ
  pub tick : ℕ
  pub accept_inflight : ℕ
  pub cnt : Counters
  pub br : Bridge HookResult
  pub jobs : List Job
  pub posted : List Request
  pub calls : List Syscall
  pub last_overflow : ℕ
  pub warned_overflow : Bool
