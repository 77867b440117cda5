-- ===== src/Worker/Lifecycle/RelayCases.antt =====
-- Each relay case of flashrelay/worker.go keeps its connection in phase.
use flash_relay.Base.{◌+◌, ◌≤◌, ◌<◌, ◌≡◌, refl, true, false, arith, List, some, ltb, if-rule}
use flash_relay.Base.Int.{ℤ, pos_part, is_neg, is_nonpos}
use flash_relay.Worker.State.{Conn, Worker, HookResult, shutdown_wr}
use flash_relay.Worker.Ops
use flash_relay.Worker.Ops.{Op, max_id}
use flash_relay.Worker.Conns.{find, count_id}
use flash_relay.Worker.Actions.{post, syscall, write}
use flash_relay.Worker.Handlers.{c2u_recv_open, c2u_send_open, u2c_recv_open, u2c_send_open}
use flash_relay.Worker.Tokens.{tokens, add_op}
use flash_relay.Worker.Lifecycle.{IsOpen, InPhase, deciding}
use flash_relay.Worker.Lifecycle.Rules.{reissue, settle}
use flash_relay.Worker.Lifecycle.Cases.{failed, closed}

module _ (taken : List HookResult) (c : Conn) (w : Worker) (s : c.id < max_id)
    (u : count_id c.id w.conns ≤ 1) (f : find c.id w.conns ≡ some c) (n : c.closing ≡ false) where
  pub of_c2u_recv :
      (res : ℤ)
      → IsOpen c (add_op Ops.c2u_recv (tokens c.id w.posted)) (deciding c.id taken w)
      → InPhase c.id taken (c2u_recv_open res c w)
  unfolding c2u_recv_open write post syscall
  of_c2u_recv res o =
      let ended : Conn = record c { client_read_done = true } in
      let w1 = syscall (shutdown_wr c.upstream_fd) w in
      let c' : Conn = record c { last_tick = w.tick; c2u_off = 0; c2u_end = pos_part res } in
      let d = deciding c.id taken w in
      if-rule (InPhase c.id taken) (is_neg res) (λ _. failed taken c w s u f n o.no_close)
        (λ _.
          if-rule (InPhase c.id taken) (is_nonpos res)
            (λ _.
              if-rule (InPhase c.id taken) c.upstream_read_done
                (λ _. closed taken ended c w1 s u f n o.no_close (ground arith))
                (λ going. record { phase = settle ended c w d f n (ground arith) }))
            (λ _. record { phase = reissue c' c w d f Ops.c2u_send _ s refl n (ground arith) }))

  pub of_c2u_send :
      (res : ℤ)
      → IsOpen c (add_op Ops.c2u_send (tokens c.id w.posted)) (deciding c.id taken w)
      → InPhase c.id taken (c2u_send_open res c w)
  unfolding c2u_send_open write post
  of_c2u_send res o =
      let c' : Conn = record c { c2u_off = c.c2u_off + pos_part res } in
      let d = deciding c.id taken w in
      if-rule (InPhase c.id taken) (is_nonpos res) (λ _. failed taken c w s u f n o.no_close)
        (λ _.
          if-rule (InPhase c.id taken) (ltb c'.c2u_off c'.c2u_end)
            (λ _. record { phase = reissue c' c w d f Ops.c2u_send _ s refl n (ground arith) })
            (λ _.
              if-rule (InPhase c.id taken) c.client_read_done (λ done. absurd (ground arith))
                (λ _. record {
                  phase = reissue c' c w d f Ops.c2u_recv _ s refl n (ground arith);
                })))

  pub of_u2c_recv :
      (res : ℤ)
      → IsOpen c (add_op Ops.u2c_recv (tokens c.id w.posted)) (deciding c.id taken w)
      → InPhase c.id taken (u2c_recv_open res c w)
  unfolding u2c_recv_open write post syscall
  of_u2c_recv res o =
      let ended : Conn = record c { upstream_read_done = true } in
      let w1 = syscall (shutdown_wr c.client_fd) w in
      let c' : Conn = record c { last_tick = w.tick; u2c_off = 0; u2c_end = pos_part res } in
      let d = deciding c.id taken w in
      if-rule (InPhase c.id taken) (is_neg res) (λ _. failed taken c w s u f n o.no_close)
        (λ _.
          if-rule (InPhase c.id taken) (is_nonpos res)
            (λ _.
              if-rule (InPhase c.id taken) c.client_read_done
                (λ _. closed taken ended c w1 s u f n o.no_close (ground arith))
                (λ going. record { phase = settle ended c w d f n (ground arith) }))
            (λ _. record { phase = reissue c' c w d f Ops.u2c_send _ s refl n (ground arith) }))

  pub of_u2c_send :
      (res : ℤ)
      → IsOpen c (add_op Ops.u2c_send (tokens c.id w.posted)) (deciding c.id taken w)
      → InPhase c.id taken (u2c_send_open res c w)
  unfolding u2c_send_open write post
  of_u2c_send res o =
      let c' : Conn = record c { u2c_off = c.u2c_off + pos_part res } in
      let d = deciding c.id taken w in
      if-rule (InPhase c.id taken) (is_nonpos res) (λ _. failed taken c w s u f n o.no_close)
        (λ _.
          if-rule (InPhase c.id taken) (ltb c'.u2c_off c'.u2c_end)
            (λ _. record { phase = reissue c' c w d f Ops.u2c_send _ s refl n (ground arith) })
            (λ _.
              if-rule (InPhase c.id taken) c.upstream_read_done (λ done. absurd (ground arith))
                (λ _. record {
                  phase = reissue c' c w d f Ops.u2c_recv _ s refl n (ground arith);
                })))
