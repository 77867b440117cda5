-- ===== src/Worker/Loop.antt =====
-- flashrelay/worker.go: the idle sweep, the completion `switch`, and the main loop.
use flash_relay.Base.{
  ℕ, zero, suc, ◌+◌, ◌/◌, ◌%◌, true, false, not, ◌≡◌, ap, ◌∙◌, ◌&&◌, List, [], ◌∷◌, Option, none,
  some, ltb, ◌==◌, Bool, if◌then◌else◌, length,
}
use flash_relay.Base.Int.{ℤ, is_pos, pos_part}
use flash_relay.Base.Words.{add64, sub64, sub32}
use flash_relay.Worker.State.{Limits, Conn, Worker}
use flash_relay.Worker.Ops
use flash_relay.Worker.Ops.{Op, op_case, op_code, op_case-op_code, unpack}
use flash_relay.Worker.Conns.{find}
use flash_relay.Worker.Actions.{
  write, count_idle_closed, close_conn, post_accept, post_eventfd, post_timeout,
}
use flash_relay.Worker.Handlers.{
  on_eventfd, on_accept, on_recv_req, on_reply_client, on_reply_more, on_reject_send, on_send_up,
  on_c2u_recv, on_c2u_send, on_u2c_recv, on_u2c_send, on_close,
}

-- `idleTicks` from the timeout in nanoseconds: rounds of 100ms, at least one if enabled.
unfoldable pub idle_ticks : ℤ → ℕ
idle_ticks timeout =
    if is_pos timeout then (let n = pos_part timeout / 100000000 in if n == 0 then 1 else n) else 0

-- The test of the sweep.
abbrev pub is_idle : Limits → ℕ → Conn → Bool
is_idle lim tick cc = not cc.closing && ltb lim.idle_ticks (sub64 tick cc.last_tick)

-- One round of `for _, cc := range conns`, for the connection of an id.
unfoldable pub sweep_one : Limits → ℕ → Worker → Worker
sweep_one lim id w = elim (find id w.conns) [
  | none ↦ w
  | some cc ↦
      if is_idle lim w.tick cc
      then (let cc' : Conn = record cc { counted = true } in
          close_conn cc' (write cc' (count_idle_closed w)))
      else w
]

-- Go leaves the order of the map's entries open; here it is that of the list.
unfoldable pub sweep : Limits → List Conn → Worker → Worker
sweep lim [] w = w
sweep lim (c ∷ cs) w = sweep lim cs (sweep_one lim c.id w)

-- `case opTimeout`
unfoldable pub on_timeout : Limits → Worker → Worker
on_timeout lim w =
    let w1 = post_timeout w in
    let w2 : Worker = record w1 { tick = add64 w1.tick 1 } in
    if ltb 0 lim.idle_ticks && w2.tick % 10 == 0 then sweep lim w2.conns w2 else w2

pub record Cqe : Type 0 where
  pub user_data : ℕ
  pub res : ℤ

-- The cases of `switch op`
unfoldable pub on_op : Limits → ℕ → ℤ → Op → Worker → Worker
on_op lim cid res Ops.accept = on_accept lim res
on_op lim cid res Ops.eventfd = on_eventfd lim
on_op lim cid res Ops.recv_req = on_recv_req cid res
on_op lim cid res Ops.reply_client = on_reply_client lim cid res
on_op lim cid res Ops.reply_more = on_reply_more cid res
on_op lim cid res Ops.send_up = on_send_up lim cid res
on_op lim cid res Ops.reject_send = on_reject_send cid res
on_op lim cid res Ops.c2u_recv = on_c2u_recv cid res
on_op lim cid res Ops.c2u_send = on_c2u_send cid res
on_op lim cid res Ops.u2c_recv = on_u2c_recv cid res
on_op lim cid res Ops.u2c_send = on_u2c_send cid res
on_op lim cid res Ops.close = on_close cid
on_op lim cid res Ops.timeout = on_timeout lim

unfoldable pub handle : Limits → Cqe → Worker → Worker
handle lim cqe w =
    let (cid, op) = unpack cqe.user_data in
    elim (op_case op) [ none ↦ w | some o ↦ on_op lim cid cqe.res o w ]

-- The `for` over the completions that are ready.
unfoldable pub handle_all : Limits → List Cqe → Worker → Worker
handle_all lim [] w = w
handle_all lim (e ∷ es) w = handle_all lim es (handle lim e w)

-- The overflow check: `ov` is the kernel's running count, a uint32.
unfoldable pub check_overflow : ℕ → Worker → Worker
check_overflow ov w = if ov == w.last_overflow then w else record w {
  cnt = record w.cnt { cq_overflow = add64 w.cnt.cq_overflow (sub32 ov w.last_overflow) };
  warned_overflow = true;
  last_overflow = ov;
}

-- `for acceptInflight < cfg.AcceptBatch && len(conns)+acceptInflight < cfg.MaxConns`: each round
-- adds one to `acceptInflight`, so `accept_batch` rounds are enough.
unfoldable pub top_up : ℕ → Limits → Worker → Worker
top_up zero lim w = w
top_up (suc fuel) lim w =
    let next = top_up fuel lim (post_accept w) in
    if ltb w.accept_inflight lim.accept_batch
      && ltb (length w.conns + w.accept_inflight) lim.max_conns
    then next
    else w

-- One turn of the main loop behind `ring.Submit(1)`: `none` where the worker returns.
unfoldable pub turn : Limits → Bool → ℕ → List Cqe → Worker → Option Worker
turn lim stop ov es w =
    let w1 = check_overflow ov (handle_all lim es w) in
    if stop
    then if length w1.conns == 0 then none else some w1
    else some (top_up lim.accept_batch lim w1)

-- The locals of `runWorker` as they are declared; the server's counters start at 0.
abbrev pub locals : Worker
locals = record {
  conns = [];
  next_id = 0;
  tick = 0;
  accept_inflight = 0;
  cnt = record {
    accepted = 0;
    completed = 0;
    rejected = 0;
    shed = 0;
    idle_closed = 0;
    errors = 0;
    bytes_c2u = 0;
    bytes_u2c = 0;
    live = 0;
    cq_overflow = 0;
  };
  br = record { ready = []; notified = false; efd = 0 };
  jobs = [];
  posted = [];
  calls = [];
  last_overflow = 0;
  warned_overflow = false;
}

-- The worker as it enters the loop: the eventfd read and the timer are armed.
unfoldable pub start : Worker
start = post_timeout (post_eventfd locals)

-- A completion whose code is that of an operation runs its case.
pub handle-op :
    (lim : Limits) (op : Op) (e : Cqe) (w : Worker)
    → (unpack e.user_data).1 ≡ op_code op
    → handle lim e w ≡ on_op lim (unpack e.user_data).0 e.res op w
unfolding handle
handle-op lim op e w h =
    let selected : op_case (unpack e.user_data).1 ≡ some op = ap op_case h ∙ op_case-op_code op in
    rw (selected, handle)
