-- ===== src/Relay/Loop.antt =====
-- research/gate/cmd/relay-uring/main.go: the completion `switch` and the main loop of `worker`.
use flash_relay.Base.{
  ℕ, zero, suc, ◌+◌, false, ◌&&◌, List, [], ◌∷◌, Option, none, some, ltb, if◌then◌else◌, replicate,
  length, get_or,
}
use flash_relay.Base.Int.{ℤ}
use flash_relay.Worker.Ops.{unpack}
use flash_relay.Relay.State.{Pipe, RelayCfg, Relay}
use flash_relay.Relay.Ops
use flash_relay.Relay.Ops.{Op, op_case}
use flash_relay.Relay.Actions.{post_accept, per_ln, post_eventfd, post_timeout}
use flash_relay.Relay.Cases.{
  on_accept, on_eventfd, on_recv_req, on_send_up, on_recv_resp, on_send_client, on_close,
}
use flash_relay.Relay.Duplex.{
  on_c2u_recv, on_c2u_send, on_u2c_recv, on_u2c_send, on_c2u_splice_in, on_c2u_splice_out,
  on_u2c_splice_in, on_u2c_splice_out,
}

-- A completion, with what the kernel answers to the two `syscall.Pipe` that its case may make.
pub record Completion : Type 0 where
  pub user_data : ℕ
  pub res : ℤ
  pub first_pipe : Option Pipe
  pub second_pipe : Option Pipe

-- The cases of `switch op`
unfoldable pub on_op : RelayCfg → ℕ → Completion → Op → Relay → Relay
on_op cfg cid e Ops.accept = on_accept cfg cid e.res
on_op cfg cid e Ops.eventfd = on_eventfd cfg
on_op cfg cid e Ops.recv_req = on_recv_req cfg cid e.res
on_op cfg cid e Ops.send_up = on_send_up cfg e.first_pipe e.second_pipe cid e.res
on_op cfg cid e Ops.recv_resp = on_recv_resp cfg cid e.res
on_op cfg cid e Ops.send_client = on_send_client cfg cid e.res
on_op cfg cid e Ops.close = on_close cfg cid
on_op cfg cid e Ops.c2u_recv = on_c2u_recv cfg cid e.res
on_op cfg cid e Ops.c2u_send = on_c2u_send cfg cid e.res
on_op cfg cid e Ops.u2c_recv = on_u2c_recv cfg cid e.res
on_op cfg cid e Ops.u2c_send = on_u2c_send cfg cid e.res
on_op cfg cid e Ops.c2u_splice_in = on_c2u_splice_in cfg cid e.res
on_op cfg cid e Ops.c2u_splice_out = on_c2u_splice_out cfg cid e.res
on_op cfg cid e Ops.u2c_splice_in = on_u2c_splice_in cfg cid e.res
on_op cfg cid e Ops.u2c_splice_out = on_u2c_splice_out cfg cid e.res
on_op cfg cid e Ops.timeout = post_timeout

unfoldable pub handle : RelayCfg → Completion → Relay → Relay
handle cfg e w =
    let (cid, op) = unpack e.user_data in
    elim (op_case op) [ none ↦ w | some o ↦ on_op cfg cid e o w ]

-- The `for` over the completions that are ready.
unfoldable pub handle_all : RelayCfg → List Completion → Relay → Relay
handle_all cfg [] w = w
handle_all cfg (e ∷ es) w = handle_all cfg es (handle cfg e w)

-- `for acceptInflight[k] < perLn && len(conns)+totalAccepts < c.maxConns`: each round adds one to
-- `acceptInflight[k]`, so `perLn` rounds are enough.
unfoldable pub top_up_one : ℕ → RelayCfg → ℕ → Relay → Relay
top_up_one zero cfg k w = w
top_up_one (suc fuel) cfg k w =
    let next = top_up_one fuel cfg k (post_accept cfg k w) in
    if ltb (get_or w.accept_inflight k 0) (per_ln cfg)
      && ltb (length w.conns + w.total_accepts) cfg.max_conns
    then next
    else w

-- `for k := range lns`, for the listeners from an index on.
unfoldable pub top_up_from : RelayCfg → ℕ → List ℤ → Relay → Relay
top_up_from cfg k [] w = w
top_up_from cfg k (ln ∷ lns) w = top_up_from cfg (suc k) lns (top_up_one (per_ln cfg) cfg k w)

unfoldable pub top_up : RelayCfg → Relay → Relay
top_up cfg = top_up_from cfg 0 cfg.lns

-- One turn of the main loop behind `ring.Submit(1)`.
unfoldable pub turn : RelayCfg → List Completion → Relay → Relay
turn cfg es w = top_up cfg (handle_all cfg es w)

-- The locals of `worker` as they are declared.
abbrev pub locals : RelayCfg → Relay
locals cfg = record {
  conns = [];
  next_id = 0;
  conn_free = [];
  accept_inflight = replicate (length cfg.lns) 0;
  total_accepts = 0;
  accepted = 0;
  completed = 0;
  shed = 0;
  errs = 0;
  g_accepted = 0;
  g_completed = 0;
  br = record { ready = []; notified = false; efd = 0 };
  jobs = [];
  posted = [];
  calls = [];
}

-- `for k := range lns { postAccept(k) }`, from an index on.
unfoldable pub accept_from : RelayCfg → ℕ → List ℤ → Relay → Relay
accept_from cfg k [] w = w
accept_from cfg k (ln ∷ lns) w = accept_from cfg (suc k) lns (post_accept cfg k w)

-- The worker as it enters the loop.
unfoldable pub start : RelayCfg → Relay
start cfg = post_timeout (post_eventfd (accept_from cfg 0 cfg.lns (locals cfg)))
