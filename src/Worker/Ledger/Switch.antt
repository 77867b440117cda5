-- ===== src/Worker/Ledger/Switch.antt =====
-- What the `switch` of flashrelay/worker.go charges, and what the kernel writes before.
use flash_relay.Base.{
  ℕ, ◌<◌, ◌≡◌, ◌∙◌, refl, ap, List, [], Option, some, arith, inl, inr, Option-cases,
}
use mathlib.Core.Path.{subst}
use flash_relay.Base.Int.{ℤ, is_neg, is_zero}
use flash_relay.Worker.State.{Limits, Worker, Request}
use flash_relay.Worker.Ops
use flash_relay.Worker.Ops.{Op, op_code, op_case, ud, unpack, max_id}
use flash_relay.Worker.Conns.{find, find-id, total}
use flash_relay.Worker.Handlers.{
  recv_req_open, reply_client_open, reply_more_open, reject_send_open, send_up_open, c2u_recv_open,
  c2u_send_open, u2c_recv_open, u2c_send_open, on_recv_req, on_reply_client, on_reply_more,
  on_reject_send, on_send_up, on_c2u_recv, on_c2u_send, on_u2c_recv, on_u2c_send,
}
use flash_relay.Worker.Loop.{on_op, handle}
use flash_relay.Worker.Kernel.{user_data, receive_into, deliver}
use flash_relay.Worker.Lifecycle.{bit}
use flash_relay.Worker.Lifecycle.Sound.{Rest, whole}
use flash_relay.Worker.Lifecycle.Arrivals.{Pending}
use flash_relay.Worker.Ledger.{Booked, Booked_refl, unnumbered}
use flash_relay.Worker.Ledger.Closures.{agrees}
use flash_relay.Worker.Ledger.Cases
use flash_relay.Worker.Ledger.Cases.{numbered-rule, kept, SameBooks-refl}
use flash_relay.Worker.Ledger.Decisions.{on_close-Booked}
use flash_relay.Worker.Ledger.Events.{
  timed_twice, on_timeout-Booked, on_eventfd-Booked, on_accept-Booked,
}

-- What a completion charges to no accepted connection: an accept that failed, and a sweep's second
-- charge of a connection.
unfoldable pub surplus_op : Limits → ℤ → Option Op → Worker → ℕ
surplus_op lim res (some Ops.accept) w = bit (is_neg res)
surplus_op lim res (some Ops.timeout) w = timed_twice lim w
surplus_op lim res _ w = 0

-- An accept that returned fd 0, which the code takes for no fd.
unfoldable pub zero_op : ℤ → Option Op → ℕ
zero_op res (some Ops.accept) = bit (is_zero res)
zero_op res _ = 0

module _ (lim : Limits) (cid : ℕ) (res : ℤ) (w : Worker) (h : Rest cid [] w)
    (room : w.next_id < max_id) (numbered : total unnumbered w.conns ≡ 0) where
  on_op-Booked :
      (op : Op)
      → Pending cid (some op) w
      → zero_op res (some op) ≡ 0
      → Booked (surplus_op lim res (some op) w) w (on_op lim cid res op w)
  unfolding on_op Pending surplus_op zero_op on_recv_req on_reply_client on_reply_more
      on_reject_send on_send_up on_c2u_recv on_c2u_send on_u2c_recv on_u2c_send
  on_op-Booked Ops.accept p z = on_accept-Booked lim res w (ground (arith, z))
  on_op-Booked Ops.eventfd p z =
      on_eventfd-Booked lim w room (whole cid [] w h (record { phase = p })) numbered
  on_op-Booked Ops.timeout p z = on_timeout-Booked lim w numbered
  on_op-Booked Ops.close p z = on_close-Booked cid w p
  on_op-Booked Ops.recv_req p z =
      numbered-rule cid (recv_req_open res) w numbered (λ c f g k. Cases.of_recv_req c w f g k res)
  on_op-Booked Ops.reply_client p z =
      numbered-rule cid (reply_client_open lim res) w numbered
        (λ c f g k. Cases.of_reply_client c w f g k lim res)
  on_op-Booked Ops.reply_more p z =
      numbered-rule cid (reply_more_open res) w numbered
        (λ c f g k. Cases.of_reply_more c w f g k res)
  on_op-Booked Ops.send_up p z =
      numbered-rule cid (send_up_open lim res) w numbered
        (λ c f g k. Cases.of_send_up c w f g k lim res)
  on_op-Booked Ops.reject_send p z =
      numbered-rule cid (reject_send_open res) w numbered
        (λ c f g k. Cases.of_reject_send c w f g k res)
  on_op-Booked Ops.c2u_recv p z =
      numbered-rule cid (c2u_recv_open res) w numbered (λ c f g k. Cases.of_c2u_recv c w f g k res)
  on_op-Booked Ops.c2u_send p z =
      numbered-rule cid (c2u_send_open res) w numbered (λ c f g k. Cases.of_c2u_send c w f g k res)
  on_op-Booked Ops.u2c_recv p z =
      numbered-rule cid (u2c_recv_open res) w numbered (λ c f g k. Cases.of_u2c_recv c w f g k res)
  on_op-Booked Ops.u2c_send p z =
      numbered-rule cid (u2c_send_open res) w numbered (λ c f g k. Cases.of_u2c_send c w f g k res)

pub handle-Booked :
    (lim : Limits) (r : Request) (res : ℤ) (w : Worker)
    → Rest (unpack (user_data r)).0 [] w
    → Pending (unpack (user_data r)).0 (op_case (unpack (user_data r)).1) w
    → w.next_id < max_id
    → total unnumbered w.conns ≡ 0
    → zero_op res (op_case (unpack (user_data r)).1) ≡ 0
    → Booked
        (surplus_op lim res (op_case (unpack (user_data r)).1) w)
        w
        (handle lim (record { user_data = user_data r; res = res }) w)
unfolding handle surplus_op
handle-Booked lim r res w h p room numbered z =
    let cid = (unpack (user_data r)).0 in
    elim (Option-cases (op_case (unpack (user_data r)).1)) [
      | inl e ↦ rw (e, handle) (Booked_refl w)
      | inr (op, e) ↦
          rw (e, handle)
            (on_op-Booked lim cid res w h room numbered op (subst (λ o. Pending cid o w) e p)
              (subst (λ o. zero_op res o ≡ 0) e z))
    ]

pub deliver-Booked : (r : Request) (bytes : List ℕ) (w : Worker) → Booked 0 w (deliver r bytes w)
unfolding deliver
deliver-Booked r bytes w =
    let (cid, op) = unpack (user_data r) in
    elim (Option-cases (find cid w.conns)) [
      | inl e ↦ rw (e, deliver) (Booked_refl w)
      | inr (c, e) ↦
          let own = ap (λ i. find i w.conns) (find-id cid c w.conns e) ∙ e in
          let c' = receive_into op bytes c in
          let same = agrees c' c (ground arith) (ground arith) (ground arith) (ground arith) in
          rw (e, deliver) (kept c w own c' _ same refl (SameBooks-refl w.cnt))
    ]
