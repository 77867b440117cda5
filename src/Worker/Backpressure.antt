-- ===== src/Worker/Backpressure.antt =====
-- The connection cap of flashrelay/worker.go: `MaxConns`, the accepts in flight and the shed branch.
use flash_relay.Base.{
  ℕ, zero, suc, ◌+◌, ◌-◌, ◌≤◌, ◌<◌, ◌≡◌, refl, ltb, leb, ◌==◌, inl, inr, if-rule, arith, List, ◌∷◌,
  [], length, get_elem?, Option-cases, Bool-cases, ◌&&◌,
}
use flash_relay.Base.Int.{ℤ, is_neg}
use flash_relay.Base.Words.{add64}
use flash_relay.Worker.State.{Limits, Decision, Worker, Request, accept}
use flash_relay.Worker.Ops
use flash_relay.Worker.Ops.{Op, op_code, op_case, ud, unpack, unpack-op}
use flash_relay.Worker.Actions.{post, post_accept, post_eventfd, count_live, count_accepted}
use flash_relay.Worker.Handlers.{on_accept, admit, new_conn}
use flash_relay.Worker.Loop.{on_op, handle, handle-op, locals, check_overflow, top_up, start}
use flash_relay.Base.Sums.{tally, tally-cons, remove_at, tally-remove_at}
use flash_relay.Worker.Kernel.{
  World, Event, completes, decides, overflows, tops_up, user_data, deliver, complete, decide, step,
  run, boot,
}
use flash_relay.Worker.Frame.{
  Keeps, is_accept, Keeps-Contains, post_eventfd-Keeps, post_timeout-Keeps,
}
use flash_relay.Worker.Footprint.{recv_req}
use flash_relay.Worker.Frame.Handle

-- What the worker promises of its cap: the connections and the accepts in flight fit it, every
-- accept in flight is counted, and nothing was ever shed.
pub record HasRoom (lim : Limits) (w : Worker) : Type 0 where
  pub within : length w.conns + w.accept_inflight ≤ lim.max_conns
  pub armed : tally is_accept w.posted ≡ w.accept_inflight
  pub none_shed : w.cnt.shed ≡ 0

Keeps-HasRoom : (lim : Limits) (u v : Worker) → Keeps u v → HasRoom lim u → HasRoom lim v
Keeps-HasRoom lim u v k h = omega arith

admit-HasRoom :
    (lim : Limits) (fd : ℤ) (w : Worker)
    → tally is_accept w.posted ≡ w.accept_inflight
    → length w.conns + 1 + w.accept_inflight ≤ lim.max_conns
    → w.cnt.shed ≡ 0
    → HasRoom lim (admit lim fd w)
unfolding admit
admit-HasRoom lim fd w armed free shed =
    let id = add64 w.next_id 1 in
    let c = new_conn lim id fd w.tick in
    let w1 = count_live (record w { next_id = id; conns = c ∷ w.conns }) in
    ground
      (arith, (Keeps-Contains id).receives id Ops.recv_req fd (length c.req_buf) w1 refl recv_req)

-- An accept completes: there is one in flight, so there is room for its connection.
on_accept-HasRoom :
    (lim : Limits) (res : ℤ) (w : Worker)
    → length w.conns + w.accept_inflight ≤ lim.max_conns
    → tally is_accept w.posted + 1 ≡ w.accept_inflight
    → w.cnt.shed ≡ 0
    → HasRoom lim (on_accept lim res w)
unfolding on_accept
on_accept-HasRoom lim res w within armed shed =
    let w1 : Worker = record w { accept_inflight = w.accept_inflight - 1 } in
    if-rule (HasRoom lim) (is_neg res) (λ _. omega arith)
      (λ _.
        if-rule (HasRoom lim) (leb lim.max_conns (length w.conns)) (λ full. absurd (ground arith))
          (λ _. admit-HasRoom lim res (count_accepted w1) (omega arith) (omega arith) shed))

handle-HasRoom :
    (lim : Limits) (r : Request) (res : ℤ) (w : Worker)
    → length w.conns + w.accept_inflight ≤ lim.max_conns
    → tally is_accept w.posted + is_accept r ≡ w.accept_inflight
    → w.cnt.shed ≡ 0
    → HasRoom lim (handle lim (record { user_data = user_data r; res = res }) w)
unfolding on_op
handle-HasRoom lim r res w within armed shed =
    elim (Bool-cases ((unpack (user_data r)).1 == op_code Ops.accept)) [
      | inl e ↦
          rw
            (handle-op lim Ops.accept (record { user_data = user_data r; res = res }) w
              (ground arith))
            (on_accept-HasRoom lim res w within (ground arith) shed)
      | inr e ↦
          Keeps-HasRoom lim w _ (Handle.handle-Keeps lim _ w e)
            (record { within = within; armed = ground arith; none_shed = shed })
    ]

complete-HasRoom :
    (lim : Limits) (i : ℕ) (res : ℤ) (bytes : List ℕ) (s : World)
    → HasRoom lim s.worker
    → HasRoom lim (complete lim i res bytes s).worker
unfolding complete
complete-HasRoom lim i res bytes s h = elim (Option-cases (get_elem? s.worker.posted i)) [
  | inl e ↦ rw (e, complete) h
  | inr (r, e) ↦
      let w : Worker = record s.worker { posted = remove_at i s.worker.posted } in
      let k = Handle.deliver-Keeps r bytes w in
      let t = tally-remove_at is_accept i r s.worker.posted e in
      rw (e, complete)
        (handle-HasRoom lim r res (deliver r bytes w) (omega arith) (omega arith) (omega arith))
]

decide-HasRoom :
    (lim : Limits) (i : ℕ) (dec : Decision) (s : World)
    → HasRoom lim s.worker
    → HasRoom lim (decide i dec s).worker
unfolding decide
decide-HasRoom lim i dec s h = elim (Option-cases (get_elem? s.worker.jobs i)) [
  | inl e ↦ rw (e, decide) h
  | inr (j, e) ↦ rw (e, decide) (omega arith)
]

post_accept-HasRoom :
    (lim : Limits) (w : Worker)
    → length w.conns + w.accept_inflight < lim.max_conns
    → HasRoom lim w
    → HasRoom lim (post_accept w)
unfolding post_accept post
post_accept-HasRoom lim w free h = ground (
  arith,
  tally-cons is_accept (accept (ud 0 (op_code Ops.accept))) w.posted,
  unpack-op 0 Ops.accept,
)

top_up-HasRoom :
    (fuel : ℕ) (lim : Limits) (w : Worker) → HasRoom lim w → HasRoom lim (top_up fuel lim w)
unfolding top_up
top_up-HasRoom zero lim w h = h
top_up-HasRoom (suc fuel) lim w h =
    if-rule (HasRoom lim)
      (ltb w.accept_inflight lim.accept_batch
        && ltb (length w.conns + w.accept_inflight) lim.max_conns)
      (λ e. top_up-HasRoom fuel lim (post_accept w) (post_accept-HasRoom lim w (ground arith) h))
      (λ _. h)

pub step-HasRoom :
    (lim : Limits) (e : Event) (s : World)
    → HasRoom lim s.worker
    → HasRoom lim (step lim e s).worker
unfolding step check_overflow
step-HasRoom lim (completes i res bytes) s h = complete-HasRoom lim i res bytes s h
step-HasRoom lim (decides i dec) s h = decide-HasRoom lim i dec s h
step-HasRoom lim (overflows ov) s h = ground arith
step-HasRoom lim tops_up s h = top_up-HasRoom lim.accept_batch lim s.worker h

run-HasRoom :
    (lim : Limits) (es : List Event) (s : World)
    → HasRoom lim s.worker
    → HasRoom lim (run lim es s).worker
unfolding run
run-HasRoom lim [] s h = h
run-HasRoom lim (e ∷ es) s h = run-HasRoom lim es (step lim e s) (step-HasRoom lim e s h)

boot-HasRoom : (lim : Limits) → HasRoom lim boot.worker
unfolding start tally
boot-HasRoom lim =
    ground (arith, post_eventfd-Keeps locals, post_timeout-Keeps (post_eventfd locals))

-- Whatever the kernel and the hooks do, the connections and the accepts in flight never exceed
-- `MaxConns`, `acceptInflight` is the number of accepts in flight, and nothing is ever shed.
pub capped : (lim : Limits) (es : List Event) → HasRoom lim (run lim es boot).worker
capped lim es = run-HasRoom lim es boot (boot-HasRoom lim)
