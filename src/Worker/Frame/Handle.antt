-- ===== src/Worker/Frame/Handle.antt =====
-- The frame of the whole completion `switch` of flashrelay/worker.go.
use flash_relay.Base.{
  ℕ, ◌≡◌, ◌≢◌, refl, false, ◌==◌, inl, inr, some, arith, List, ◌∷◌, [], Option-cases,
}
use flash_relay.Base.Int.{ℤ}
use flash_relay.Base.Words.{add64}
use flash_relay.Bridge.{Bridge, clear, drain}
use flash_relay.Worker.State.{Limits, Conn, HookResult, Worker, Request}
use flash_relay.Worker.Ops
use flash_relay.Worker.Ops.{Op, op_code, op_case, unpack}
use flash_relay.Worker.Conns.{find, length-put}
use flash_relay.Worker.Actions.{post_eventfd, post_timeout}
use flash_relay.Worker.Handlers.Hook.{on_hook_results, on_eventfd}
use flash_relay.Worker.Loop.{Cqe, sweep_one, sweep, on_timeout, on_op, handle}
use flash_relay.Worker.Kernel.{user_data, receive_into, deliver}
use flash_relay.Worker.Footprint.Cases
use flash_relay.Worker.Footprint.Decisions
use flash_relay.Worker.Frame.{
  Keeps, Keeps-refl, Keeps-Contains, post_eventfd-Keeps, post_timeout-Keeps,
}

-- The loops over hook results and over the connections of a sweep.
on_hook_results-Keeps :
    (lim : Limits) (rs : List HookResult) (w : Worker) → Keeps w (on_hook_results lim rs w)
unfolding on_hook_results
on_hook_results-Keeps lim [] w = Keeps-refl w
on_hook_results-Keeps lim (r ∷ rs) w =
    (Keeps-Contains r.id).then _ _ _
      (Decisions.of_hook_result r.id Keeps (Keeps-Contains r.id) lim r w refl)
      (on_hook_results-Keeps lim rs _)

on_eventfd-Keeps : (lim : Limits) (w : Worker) → Keeps w (on_eventfd lim w)
unfolding on_eventfd clear drain
on_eventfd-Keeps lim w =
    let w1 = post_eventfd w in
    let emptied : Bridge HookResult = record w1.br { notified = false; ready = [] } in
    let w2 : Worker = record w1 { br = emptied } in
    ground (arith, post_eventfd-Keeps w, on_hook_results-Keeps lim w1.br.ready w2)

sweep-Keeps : (lim : Limits) (cs : List Conn) (w : Worker) → Keeps w (sweep lim cs w)
unfolding sweep
sweep-Keeps lim [] w = Keeps-refl w
sweep-Keeps lim (c ∷ cs) w =
    (Keeps-Contains c.id).then _ _ _ (Decisions.of_sweep_one c.id Keeps (Keeps-Contains c.id) lim w)
      (sweep-Keeps lim cs (sweep_one lim c.id w))

on_timeout-Keeps : (lim : Limits) (w : Worker) → Keeps w (on_timeout lim w)
unfolding on_timeout
on_timeout-Keeps lim w =
    let w1 = post_timeout w in
    let w2 : Worker = record w1 { tick = add64 w1.tick 1 } in
    ground (arith, post_timeout-Keeps w, sweep-Keeps lim w2.conns w2)

-- Every case but `opAccept` keeps the frame.
on_op-Keeps :
    (lim : Limits) (cid : ℕ) (res : ℤ) (op : Op) (w : Worker)
    → op ≢ Ops.accept
    → Keeps w (on_op lim cid res op w)
unfolding on_op
on_op-Keeps lim cid res Ops.accept w h = absurd (h refl)
on_op-Keeps lim cid res Ops.eventfd w h = on_eventfd-Keeps lim w
on_op-Keeps lim cid res Ops.recv_req w h = Cases.of_recv_req cid Keeps (Keeps-Contains cid) res w
on_op-Keeps lim cid res Ops.reply_client w h =
    Cases.of_reply_client cid Keeps (Keeps-Contains cid) lim res w
on_op-Keeps lim cid res Ops.reply_more w h =
    Cases.of_reply_more cid Keeps (Keeps-Contains cid) res w
on_op-Keeps lim cid res Ops.send_up w h = Cases.of_send_up cid Keeps (Keeps-Contains cid) lim res w
on_op-Keeps lim cid res Ops.reject_send w h =
    Cases.of_reject_send cid Keeps (Keeps-Contains cid) res w
on_op-Keeps lim cid res Ops.c2u_recv w h = Cases.of_c2u_recv cid Keeps (Keeps-Contains cid) res w
on_op-Keeps lim cid res Ops.c2u_send w h = Cases.of_c2u_send cid Keeps (Keeps-Contains cid) res w
on_op-Keeps lim cid res Ops.u2c_recv w h = Cases.of_u2c_recv cid Keeps (Keeps-Contains cid) res w
on_op-Keeps lim cid res Ops.u2c_send w h = Cases.of_u2c_send cid Keeps (Keeps-Contains cid) res w
on_op-Keeps lim cid res Ops.close w h = Cases.of_close cid Keeps (Keeps-Contains cid) w
on_op-Keeps lim cid res Ops.timeout w h = on_timeout-Keeps lim w

-- Only the code of an accept selects its case.
op_case-ne :
    (n : ℕ) (op : Op) → (n == op_code Ops.accept) ≡ false → op_case n ≡ some op → op ≢ Ops.accept
op_case-ne n Ops.accept e h = ground arith
op_case-ne n _ e h = λ p. cc

pub handle-Keeps :
    (lim : Limits) (e : Cqe) (w : Worker)
    → ((unpack e.user_data).1 == op_code Ops.accept) ≡ false
    → Keeps w (handle lim e w)
unfolding handle
handle-Keeps lim e w h = elim (Option-cases (op_case (unpack e.user_data).1)) [
  | inl q ↦ rw (q, handle) (Keeps-refl w)
  | inr (op, q) ↦
      rw (q, handle)
        (on_op-Keeps lim (unpack e.user_data).0 e.res op w
          (op_case-ne (unpack e.user_data).1 op h q))
]

pub deliver-Keeps : (r : Request) (bytes : List ℕ) (w : Worker) → Keeps w (deliver r bytes w)
unfolding deliver
deliver-Keeps r bytes w = elim (Option-cases (find (unpack (user_data r)).0 w.conns)) [
  | inl e ↦ rw (e, deliver) (Keeps-refl w)
  | inr (c, e) ↦
      let c' = receive_into (unpack (user_data r)).1 bytes c in
      rw (e, deliver) (ground (arith, length-put c' w.conns))
]
