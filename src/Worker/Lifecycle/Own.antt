-- ===== src/Worker/Lifecycle/Own.antt =====
-- Each case of the completion `switch` in flashrelay/worker.go, and the idle sweep, keeps the
-- connection that it is about in phase.
use flash_relay.Base.{
  ℕ, ◌-◌, ◌≤◌, ◌<◌, ◌≡◌, ◌∙◌, refl, ap, true, false, not, ◌&&◌, List, none, some, inl, inr, arith,
  if-rule, Option-cases, leb,
}
use mathlib.Core.Path.{subst}
use flash_relay.Base.Int.{ℤ}
use flash_relay.Worker.State.{Limits, Conn, HookResult, Worker}
use flash_relay.Worker.Ops
use flash_relay.Worker.Ops.{Op, max_id}
use flash_relay.Worker.Conns.{
  find, find-id, put, delete, count_id, count_id-put, find-put_self, find-delete_self,
}
use flash_relay.Worker.Actions.{write, close_conn, count_idle_closed}
use flash_relay.Worker.Handlers.{
  recv_req_open, reply_client_open, reply_more_open, reject_send_open, send_up_open, c2u_recv_open,
  c2u_send_open, u2c_recv_open, u2c_send_open, on_close, on_recv_req, on_reply_client,
  on_reply_more, on_reject_send, on_send_up, on_c2u_recv, on_c2u_send, on_u2c_recv, on_u2c_send,
}
use flash_relay.Worker.Loop.{on_op, is_idle, sweep_one}
use flash_relay.Worker.Footprint.{
  IsTransfer, recv_req, reply_client, reply_more, send_up, reject_send, c2u_recv, c2u_send,
  u2c_recv, u2c_send,
}
use flash_relay.Worker.Tokens.{Tokens, tokens, add_op}
use flash_relay.Worker.Lifecycle.{IsShut, Phase, InPhase, deciding}
use flash_relay.Worker.Lifecycle.Rules.{Phase-IsOpen, phase_case}
use flash_relay.Worker.Lifecycle.Cases
use flash_relay.Worker.Lifecycle.RelayCases
use flash_relay.Worker.Lifecycle.Cases.{closed}

module _ (lim : Limits) (cid : ℕ) (res : ℤ) (taken : List HookResult) (w : Worker) where
  pub on_op-InPhase :
      (op : Op)
      → IsTransfer op
      → cid < max_id
      → count_id cid w.conns ≤ 1
      → Phase (find cid w.conns) (add_op op (tokens cid w.posted)) (deciding cid taken w)
      → InPhase cid taken (on_op lim cid res op w)
  unfolding on_op on_recv_req on_reply_client on_reply_more on_reject_send on_send_up on_c2u_recv
      on_c2u_send on_u2c_recv on_u2c_send
  on_op-InPhase op recv_req small unique before =
      phase_case cid op taken (recv_req_open res) w (λ t. refl) before small unique
        (λ c s u f n o. Cases.of_recv_req taken c w s u f n res o)
  on_op-InPhase op reply_client small unique before =
      phase_case cid op taken (reply_client_open lim res) w (λ t. refl) before small unique
        (λ c s u f n o. Cases.of_reply_client taken c w s u f n lim res o)
  on_op-InPhase op reply_more small unique before =
      phase_case cid op taken (reply_more_open res) w (λ t. refl) before small unique
        (λ c s u f n o. Cases.of_reply_more taken c w s u f n res o)
  on_op-InPhase op send_up small unique before =
      phase_case cid op taken (send_up_open lim res) w (λ t. refl) before small unique
        (λ c s u f n o. Cases.of_send_up taken c w s u f n lim res o)
  on_op-InPhase op reject_send small unique before =
      phase_case cid op taken (reject_send_open res) w (λ t. refl) before small unique
        (λ c s u f n o. Cases.of_reject_send taken c w s u f n res o)
  on_op-InPhase op c2u_recv small unique before =
      phase_case cid op taken (c2u_recv_open res) w (λ t. refl) before small unique
        (λ c s u f n o. RelayCases.of_c2u_recv taken c w s u f n res o)
  on_op-InPhase op c2u_send small unique before =
      phase_case cid op taken (c2u_send_open res) w (λ t. refl) before small unique
        (λ c s u f n o. RelayCases.of_c2u_send taken c w s u f n res o)
  on_op-InPhase op u2c_recv small unique before =
      phase_case cid op taken (u2c_recv_open res) w (λ t. refl) before small unique
        (λ c s u f n o. RelayCases.of_u2c_recv taken c w s u f n res o)
  on_op-InPhase op u2c_send small unique before =
      phase_case cid op taken (u2c_send_open res) w (λ t. refl) before small unique
        (λ c s u f n o. RelayCases.of_u2c_send taken c w s u f n res o)

-- A close of an open connection is never in flight.
pub closing_of :
    (c : Conn) (t : Tokens) (d : ℕ)
    → Phase (some c) (add_op Ops.close t) d
    → (c.closing ≡ true) × IsShut c (add_op Ops.close t)
closing_of c t d (inl p) = absurd (ground (arith, p.1.no_close))
closing_of c t d (inr p) = p

pub on_close-InPhase :
    (cid : ℕ) (taken : List HookResult) (w : Worker)
    → count_id cid w.conns ≤ 1
    → Phase (find cid w.conns) (add_op Ops.close (tokens cid w.posted)) (deciding cid taken w)
    → InPhase cid taken (on_close cid w)
unfolding on_close write
on_close-InPhase cid taken w unique before = elim (Option-cases (find cid w.conns)) [
  | inl e ↦ rw (e, on_close) (record { phase = rw e tt })
  | inr (c, e) ↦
      let same : c.id ≡ cid = find-id cid c w.conns e in
      let t = tokens cid w.posted in
      let d = deciding cid taken w in
      let c' : Conn = record c { closes_left = c.closes_left - 1 } in
      let (shut, was) = closing_of c t d (subst (λ o. Phase o (add_op Ops.close t) d) e before) in
      let gone : find cid (delete cid (put c' w.conns)) ≡ none =
        find-delete_self cid (put c' w.conns) (rw (count_id-put cid c' w.conns) unique) in
      let there : find cid (put c' w.conns) ≡ some c' =
        subst (λ i. find i (put c' w.conns) ≡ some c') same
          (find-put_self c' c w.conns (ap (λ i. find i w.conns) same ∙ e)) in
      rw (e, on_close)
        (if-rule (InPhase cid taken) (leb c'.closes_left 0)
          (λ _.
            if-rule (λ (v : Worker). InPhase cid taken (record v { conns = delete cid v.conns }))
              (not c'.counted && c'.relay_started) (λ _. record { phase = rw gone tt })
              (λ _. record { phase = rw gone tt }))
          (λ more. record {
            phase = rw there (
                inr (
                  shut,
                  record {
                    closes = omega (arith, was.closes);
                    some_left = ground (arith, more);
                    accounted = was.accounted;
                  },
                ));
          }))
]

pub sweep_one-InPhase :
    (lim : Limits) (id : ℕ) (taken : List HookResult) (w : Worker)
    → id < max_id
    → count_id id w.conns ≤ 1
    → InPhase id taken w
    → InPhase id taken (sweep_one lim id w)
unfolding sweep_one
sweep_one-InPhase lim id taken w small unique before = elim (Option-cases (find id w.conns)) [
  | inl e ↦ rw (e, sweep_one) before
  | inr (c, e) ↦
      let same : c.id ≡ id = find-id id c w.conns e in
      rw (e, sweep_one)
        (if-rule (InPhase id taken) (is_idle lim w.tick c)
          (λ idle.
            let going : c.closing ≡ false = ground arith in
            subst (λ i. InPhase i taken (close_conn (charged c) (write (charged c) w1))) same
              (closed taken (charged c) c w1 (rw same small) (rw same unique)
                (ap (λ i. find i w.conns) same ∙ e) going
                (rw same (
                  no_close c going (
                    subst (λ o. Phase o (tokens id w.posted) (deciding id taken w)) e
                      before.phase)))
                (omega arith)))
          (λ _. before))
]
  where
    charged : Conn → Conn
    charged c = record c { counted = true }

    w1 : Worker
    w1 = count_idle_closed w

    no_close :
        (c : Conn)
        → c.closing ≡ false
        → Phase (some c) (tokens id w.posted) (deciding id taken w)
        → (tokens id w.posted).close ≡ 0
    no_close c going p = (Phase-IsOpen c _ _ going p).no_close
