-- ===== src/Worker/Lifecycle/Rules.antt =====
-- How a completion case of flashrelay/worker.go moves its connection from phase to phase: the rule
-- for a case, and the phases after the closures that go on.
use flash_relay.Base.{
  ℕ, ◌≤◌, ◌<◌, ◌≡◌, ◌∙◌, refl, ap, sym, true, false, some, arith, inl, inr, if-rule, Option-cases,
  ◌∷◌, [], List, replicate, length, leb,
}
use mathlib.Core.Path.{subst}
use flash_relay.Worker.State.{Limits, Conn, Request, Worker, HookResult, recv}
use flash_relay.Worker.Ops
use flash_relay.Worker.Ops.{Op, op_code, ud, max_id}
use flash_relay.Worker.Conns.{count_id, find, find-id, put, find-put_self}
use flash_relay.Worker.Kernel.{user_data}
use flash_relay.Worker.Actions.{post, write, start_duplex, forward_init}
use flash_relay.Worker.Handlers.{with_conn}
use flash_relay.Worker.Tokens.{Tokens, tokens, tokens-own, add_op}
use flash_relay.Worker.Lifecycle.{IsOpen, Phase, PhaseAt, InPhase, deciding}

pub Phase-IsOpen :
    (c : Conn) (t : Tokens) (d : ℕ) → c.closing ≡ false → Phase (some c) t d → IsOpen c t d
Phase-IsOpen c t d h (inl p) = p.1
Phase-IsOpen c t d h (inr p) = absurd (cc (h, p.0))

still_shut :
    (c : Conn) (s t : Tokens) (d : ℕ)
    → s.close ≡ t.close
    → c.closing ≡ true
    → Phase (some c) s d
    → Phase (some c) t d
still_shut c s t d e h (inl p) = absurd (cc (h, p.0))
still_shut c s t d e h (inr p) = inr (h, ground arith)

-- A case whose operation is no close: the connection is gone, or closing, or goes on.
pub phase_case :
    (cid : ℕ) (op : Op) (taken : List HookResult) (rest : Conn → Worker → Worker) (w : Worker)
    → ((t : Tokens) → (add_op op t).close ≡ t.close)
    → Phase (find cid w.conns) (add_op op (tokens cid w.posted)) (deciding cid taken w)
    → cid < max_id
    → count_id cid w.conns ≤ 1
    → ((c : Conn)
        → c.id < max_id
        → count_id c.id w.conns ≤ 1
        → find c.id w.conns ≡ some c
        → c.closing ≡ false
        → IsOpen c (add_op op (tokens c.id w.posted)) (deciding c.id taken w)
        → InPhase c.id taken (rest c w))
    → InPhase cid taken (with_conn cid rest w)
phase_case cid op taken rest w no_close before small unique go =
    elim (Option-cases (find cid w.conns)) [
      | inl e ↦ rw (e, with_conn) (record { phase = rw e tt })
      | inr (c, e) ↦
          let same : c.id ≡ cid = find-id cid c w.conns e in
          let t = tokens cid w.posted in
          let d = deciding cid taken w in
          let before' : Phase (some c) (add_op op t) d =
            subst (λ o. Phase o (add_op op t) d) e before in
          rw (e, with_conn)
            (if-rule (InPhase cid taken) c.closing
              (λ closed. record {
                phase =
                    subst (λ o. Phase o t d) (sym e)
                      (still_shut c (add_op op t) t d (no_close t) closed before');
              })
              (λ is_open.
                subst (λ i. InPhase i taken (rest c w)) same
                  (go c (rw same small) (rw same unique) (ap (λ i. find i w.conns) same ∙ e) is_open
                    (subst (λ i. IsOpen c (add_op op (tokens i w.posted)) (deciding i taken w))
                      (sym same) (Phase-IsOpen c (add_op op t) d is_open before')))))
    ]

module _ (c : Conn) (w : Worker) (taken : List HookResult) (lim : Limits) where
  deciding-start_duplex : deciding c.id taken (start_duplex lim c w) ≡ deciding c.id taken w
  unfolding start_duplex write post
  deciding-start_duplex = refl

  deciding-forward_init : deciding c.id taken (forward_init lim c w) ≡ deciding c.id taken w
  unfolding forward_init start_duplex write post
  deciding-forward_init =
      if-rule (λ (v : Worker). deciding c.id taken v ≡ deciding c.id taken w)
        (leb c.req_n c.init_sent) (λ _. refl) (λ _. refl)

module _ (c old : Conn) (w : Worker) (d : ℕ) (found : find c.id w.conns ≡ some old) where
  -- The connection is written back, and one request is posted for it.
  pub reissue :
      (op : Op) (r : Request)
      → c.id < max_id
      → user_data r ≡ ud c.id (op_code op)
      → c.closing ≡ false
      → IsOpen c (add_op op (tokens c.id w.posted)) d
      → Phase (find c.id (put c w.conns)) (tokens c.id (r ∷ w.posted)) d
  reissue op r small tag is_open o =
      rw (find-put_self c old w.conns found, tokens-own c.id op r w.posted small tag)
        (inl (is_open, o))

  -- The connection is written back, and nothing is posted.
  pub settle :
      c.closing ≡ false
      → IsOpen c (tokens c.id w.posted) d
      → Phase (find c.id (put c w.conns)) (tokens c.id w.posted) d
  settle is_open o = rw (find-put_self c old w.conns found) (inl (is_open, o))

  pub start_duplex-Phase :
      (lim : Limits)
      → c.id < max_id
      → c.closing ≡ false
      → IsOpen
          (record c { relay_started = true })
          (add_op Ops.u2c_recv (add_op Ops.c2u_recv (tokens c.id w.posted)))
          d
      → PhaseAt c.id d (start_duplex lim c w)
  unfolding start_duplex write post
  start_duplex-Phase lim small is_open o =
      rw
        (
          find-put_self started old w.conns found,
          tokens-own c.id Ops.u2c_recv up (client ∷ w.posted) small refl,
          tokens-own c.id Ops.c2u_recv client w.posted small refl,
        )
        (inl (is_open, ground arith))
    where
      room : List ℕ
      room = replicate lim.buf_size 0

      started : Conn
      started = record c {
        relay_started = true;
        req_buf = [];
        reply_buf = [];
        c2u_buf = room;
        u2c_buf = room;
      }

      client : Request
      client = recv c.client_fd (length room) (ud c.id (op_code Ops.c2u_recv))

      up : Request
      up = recv c.upstream_fd (length room) (ud c.id (op_code Ops.u2c_recv))

  -- What is left of the request goes on under `opSendUp`, and an empty rest starts the relay.
  pub forward_init-Phase :
      (lim : Limits)
      → c.id < max_id
      → c.closing ≡ false
      → IsOpen c (add_op Ops.send_up (tokens c.id w.posted)) d
      → PhaseAt c.id d (forward_init lim c w)
  unfolding forward_init write post
  forward_init-Phase lim small is_open o =
      if-rule (PhaseAt c.id d) (leb c.req_n c.init_sent)
        (λ _. start_duplex-Phase lim small is_open (ground arith))
        (λ _. reissue Ops.send_up _ small refl is_open o)

  -- Neither touches the hook calls.
  pub start_duplex-InPhase :
      (taken : List HookResult) (lim : Limits)
      → d ≡ deciding c.id taken w
      → c.id < max_id
      → c.closing ≡ false
      → IsOpen
          (record c { relay_started = true })
          (add_op Ops.u2c_recv (add_op Ops.c2u_recv (tokens c.id w.posted)))
          d
      → InPhase c.id taken (start_duplex lim c w)
  start_duplex-InPhase taken lim e small is_open o = record {
    phase =
        subst (λ k. PhaseAt c.id k (start_duplex lim c w))
          (e ∙ sym (deciding-start_duplex c w taken lim)) (start_duplex-Phase lim small is_open o);
  }

  pub forward_init-InPhase :
      (taken : List HookResult) (lim : Limits)
      → d ≡ deciding c.id taken w
      → c.id < max_id
      → c.closing ≡ false
      → IsOpen c (add_op Ops.send_up (tokens c.id w.posted)) d
      → InPhase c.id taken (forward_init lim c w)
  forward_init-InPhase taken lim e small is_open o = record {
    phase =
        subst (λ k. PhaseAt c.id k (forward_init lim c w))
          (e ∙ sym (deciding-forward_init c w taken lim)) (forward_init-Phase lim small is_open o);
  }
