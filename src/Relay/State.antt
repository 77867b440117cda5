-- ===== src/Relay/State.antt =====
-- research/gate/cmd/relay-uring/main.go: the data of one worker. Bytes are numbers, a file descriptor
-- is a signed int, and a buffer is the list of its bytes.
use flash_relay.Base.{ℕ, Bool, List, Option}
use flash_relay.Base.Int.{ℤ}
use flash_relay.Bridge.{Bridge}
use flash_relay.Relay.Ops.{Op}

-- The two ends of a pipe: `p[0]` and `p[1]`.
pub record Pipe : Type 0 where
  pub read_end : ℤ
  pub write_end : ℤ

pub record Conn : Type 0 where
  pub id : ℕ
  pub client_fd : ℤ
  pub upstream_fd : ℤ
  pub req_buf : List ℕ
  pub resp_buf : List ℕ
  pub req_n : ℕ
  pub closing : Bool
  pub closes_left : ℕ
  pub c2u_buf : List ℕ
  pub u2c_buf : List ℕ
  pub c2u_off : ℕ
  pub c2u_end : ℕ
  pub u2c_off : ℕ
  pub u2c_end : ℕ
  pub client_read_done : Bool
  pub upstream_read_done : Bool
  pub bytes_c2u : ℕ
  pub bytes_u2c : ℕ
  pub c2u_pipe : Pipe
  pub u2c_pipe : Pipe

pub record HookResult : Type 0 where
  pub id : ℕ
  pub upstream_fd : ℤ
  pub ok : Bool

-- What a worker's loop reads of `relayCfg`, none of it negative, and the fds of its listeners.
pub record RelayCfg : Type 0 where
  pub req_len : ℕ
  pub reply_len : ℕ
  pub duplex : Bool
  pub splice : Bool
  pub buf_size : ℕ
  pub max_conns : ℕ
  pub accept_batch : ℕ
  pub lns : List ℤ

-- What a request's user_data is packed from: the connection, or the listener's index, and the code.
pub record Tag : Type 0 where
  pub id : ℕ
  pub op : Op

-- A prepared submission: what the `Prep` helper gets, with the room of a receive buffer, the bytes of
-- a send, and the two ends and the room of a splice.
pub data Request : Type 0 where
  accept : ℤ → Tag → Request
  read : Tag → Request
  timer : Tag → Request
  recv : ℤ → ℕ → Tag → Request
  send : ℤ → List ℕ → Tag → Request
  splice : ℤ → ℤ → ℕ → Tag → Request
  close : ℤ → Tag → Request

-- A system call that a case makes directly: a close of a connection or of an end of a pipe, the half
-- close of a socket, and the making of a pipe.
pub data Syscall : Type 0 where
  close_fd : ℤ → Syscall
  close_pipe : ℤ → Syscall
  shutdown_wr : ℤ → Syscall
  make_pipe : Option Pipe → Syscall

-- The locals of `worker` and the two counters of the process, with what the worker has handed to the
-- kernel: `posted` (ring requests, newest first) and `calls` (direct system calls, newest first).
-- `conn_free` has the last entry of the slice first.
pub record Relay : Type 0 where
  pub conns : List (ℕ × Conn)
  pub next_id : ℕ
  pub conn_free : List Conn
  pub accept_inflight : List ℕ
  pub total_accepts : ℕ
  pub accepted : ℕ
  pub completed : ℕ
  pub shed : ℕ
  pub errs : ℕ
  pub g_accepted : ℕ
  pub g_completed : ℕ
  pub br : Bridge HookResult
  pub jobs : List ℕ
  pub posted : List Request
  pub calls : List Syscall
