-- ===== src/Config.antt =====
-- flashrelay/flashrelay.go: `Config`, its defaults, and the validation of `New`.
use flash_relay.Base.{
  ℕ, zero, suc, ◌≤◌, ◌<◌, ◌≡◌, Bool, true, false, List, [], ◌∷◌, if◌then◌else◌, ◌==◌, arith,
  if-rule,
}
use flash_relay.Base.Int.{ℤ, pos, negsuc, is_pos, is_nonpos, pos_part, neg_part, ltb_ℤ}
use flash_relay.Worker.State.{Limits}
use flash_relay.Worker.Loop.{idle_ticks}
pub mod Ready

-- `addr` is the bytes of the string.
pub record Config : Type 0 where
  pub addr : List ℕ
  pub port : ℤ
  pub workers : ℤ
  pub pin : Bool
  pub start_core : ℤ
  pub initial_req_len : ℤ
  pub max_req_len : ℤ
  pub buf_size : ℤ
  pub max_conns : ℤ
  pub accept_batch : ℤ
  pub idle_timeout : ℤ
  pub hook_workers : ℤ
  pub ring_size : ℕ

-- `if x <= 0 { x = d }`
abbrev pub default_to : ℕ → ℤ → ℤ
default_to d x = if is_nonpos x then pos d else x

-- `defaults`, on a machine of `num_cpu` cores.
unfoldable pub defaults : ℕ → Config → Config
defaults num_cpu c =
    let first = default_to 64 c.initial_req_len in
    let cap = default_to 8192 c.max_req_len in
    record c {
      workers = default_to num_cpu c.workers;
      initial_req_len = first;
      max_req_len = if ltb_ℤ cap first then first else cap;
      buf_size = default_to 16384 c.buf_size;
      max_conns = default_to 50000 c.max_conns;
      accept_batch = default_to 64 c.accept_batch;
      hook_workers = default_to 256 c.hook_workers;
      ring_size = if c.ring_size == 0 then 4096 else c.ring_size;
    }

pub data NewError : Type 0 where
  nil_hook : NewError
  invalid_port : ℤ → NewError

pub data NewResult : Type 0 where
  failed : NewError → NewResult
  server : Config → NewResult

-- `New`; the hook itself is kept as it is given, so only whether there is one counts.
unfoldable pub new : ℕ → Config → Bool → NewResult
new num_cpu c has_hook =
    if has_hook
    then if is_nonpos c.port then failed (invalid_port c.port) else server (defaults num_cpu c)
    else failed nil_hook

-- The values that a worker reads of its server's configuration.
unfoldable pub limits_of : Config → Limits
limits_of c = record {
  initial_req_len = pos_part c.initial_req_len;
  max_req_len = pos_part c.max_req_len;
  buf_size = pos_part c.buf_size;
  max_conns = pos_part c.max_conns;
  accept_batch = pos_part c.accept_batch;
  idle_ticks = idle_ticks c.idle_timeout;
}
