-- ===== src/Worker/Lifecycle/Cases.antt =====
-- Each case of flashrelay/worker.go before the relay keeps its connection in phase.
use flash_relay.Base.{
  ℕ, ◌+◌, ◌≤◌, ◌<◌, ◌≡◌, refl, false, arith, List, ◌∷◌, [], ◌++◌, some, ltb, if-rule, take, ==_refl,
}
use flash_relay.Base.Int.{ℤ, pos_part, is_nonpos}
use flash_relay.Worker.State.{Limits, Conn, Job, Worker, HookResult}
use flash_relay.Worker.Ops
use flash_relay.Worker.Ops.{Op, max_id}
use flash_relay.Worker.Conns.{find, put, count_id, count_id-put, find-put_self}
use flash_relay.Worker.Actions.{
  post, write, close_conn, fail, count_c2u, forward_init, post_recv_req,
}
use flash_relay.Worker.Handlers.{
  reply_progress, recv_req_open, reply_client_open, reply_more_open, reject_send_open, send_up_open,
}
use flash_relay.Worker.Tokens.{Tokens, tokens, add_op}
use flash_relay.Worker.Lifecycle.{bit, IsOpen, InPhase, deciding, count_jobs-append}
use flash_relay.Worker.Lifecycle.Closing.{close_conn-Phase, fail-Phase}
use flash_relay.Worker.Lifecycle.Rules.{reissue, settle, start_duplex-InPhase, forward_init-InPhase}

-- The failure of an open connection.
pub failed :
    (taken : List HookResult) (c : Conn) (w : Worker)
    → c.id < max_id
    → count_id c.id w.conns ≤ 1
    → find c.id w.conns ≡ some c
    → c.closing ≡ false
    → (tokens c.id w.posted).close ≡ 0
    → InPhase c.id taken (fail c w)
failed taken c w s u f n o = record { phase = fail-Phase c c w _ s u f o n }

-- The progress of a reply is no matter of the phase.
replied :
    (c : Conn) (off : ℕ) (t : Tokens) (d : ℕ)
    → IsOpen c t d
    → IsOpen (record c { reply_off = off }) t d
replied c off t d o = record {
  no_close = o.no_close;
  one_token = o.one_token;
  client_lane = o.client_lane;
  upstream_lane = o.upstream_lane;
  half_open = o.half_open;
  charged = o.charged;
  undecided = o.undecided;
}

-- What each case does to a connection that it finds open.
module _ (taken : List HookResult) (c : Conn) (w : Worker) (s : c.id < max_id)
    (u : count_id c.id w.conns ≤ 1) (f : find c.id w.conns ≡ some c) (n : c.closing ≡ false) where
  -- The rest of a reply is sent, or the case goes on with the connection.
  reply-InPhase :
      (op : Op) (res : ℤ) (done : Conn → Worker → Worker)
      → IsOpen c (add_op op (tokens c.id w.posted)) (deciding c.id taken w)
      → InPhase c.id taken (
          done
            (record c { reply_off = c.reply_off + pos_part res })
            (write (record c { reply_off = c.reply_off + pos_part res }) w))
      → InPhase c.id taken (reply_progress op res done c w)
  unfolding write post
  reply-InPhase op res done o go =
      let c' : Conn = record c { reply_off = c.reply_off + pos_part res } in
      let d = deciding c.id taken w in
      if-rule (InPhase c.id taken) (ltb c'.reply_off c'.reply_end)
        (λ _. record {
          phase =
              reissue c' c w d f op _ s refl n
                (replied c c'.reply_off (add_op op (tokens c.id w.posted)) d o);
        })
        (λ _. go)

  pub of_recv_req :
      (res : ℤ)
      → IsOpen c (add_op Ops.recv_req (tokens c.id w.posted)) (deciding c.id taken w)
      → InPhase c.id taken (recv_req_open res c w)
  unfolding recv_req_open write
  of_recv_req res o =
      if-rule (InPhase c.id taken) (is_nonpos res) (λ _. failed taken c w s u f n o.no_close)
        (λ _.
          let c' : Conn = record c { req_n = c.req_n + pos_part res; last_tick = w.tick } in
          let j : Job = record {
            id = c.id;
            client_fd = c.client_fd;
            req = take c'.req_n c'.req_buf;
          } in
          let queued : Worker = record w { jobs = w.jobs ++ j ∷ [] } in
          record {
            phase =
                settle c' c w (deciding c.id taken queued) f n
                  (ground (arith, count_jobs-append c.id w.jobs j, ==_refl c.id));
          })

module _ (taken : List HookResult) (c : Conn) (w : Worker) (s : c.id < max_id)
    (u : count_id c.id w.conns ≤ 1) (f : find c.id w.conns ≡ some c) (n : c.closing ≡ false) where
  pub of_reply_client :
      (lim : Limits) (res : ℤ)
      → IsOpen c (add_op Ops.reply_client (tokens c.id w.posted)) (deciding c.id taken w)
      → InPhase c.id taken (reply_client_open lim res c w)
  unfolding reply_client_open write
  of_reply_client lim res o =
      let c' : Conn = record c { reply_off = c.reply_off + pos_part res } in
      let d = deciding c.id taken w in
      if-rule (InPhase c.id taken) (is_nonpos res) (λ _. failed taken c w s u f n o.no_close)
        (λ _. reply-InPhase taken c w s u f n Ops.reply_client res (forward_init lim) o (
          forward_init-InPhase c' c' (write c' w) d (find-put_self c' c w.conns f) taken lim refl s
            n (ground arith)))

  pub of_reply_more :
      (res : ℤ)
      → IsOpen c (add_op Ops.reply_more (tokens c.id w.posted)) (deciding c.id taken w)
      → InPhase c.id taken (reply_more_open res c w)
  unfolding reply_more_open write post_recv_req post
  of_reply_more res o =
      let c' : Conn = record c { reply_off = c.reply_off + pos_part res } in
      let d = deciding c.id taken w in
      if-rule (InPhase c.id taken) (is_nonpos res) (λ _. failed taken c w s u f n o.no_close)
        (λ _.
          reply-InPhase taken c w s u f n Ops.reply_more res post_recv_req o
            (record { phase = reissue c' c w d f Ops.recv_req _ s refl n (ground arith) }))

-- A connection that is changed and closed at once, its bucket being due.
pub closed :
    (taken : List HookResult) (c old : Conn) (w : Worker)
    → c.id < max_id
    → count_id c.id w.conns ≤ 1
    → find c.id w.conns ≡ some old
    → c.closing ≡ false
    → (tokens c.id w.posted).close ≡ 0
    → 0 < bit c.counted + bit c.relay_started
    → InPhase c.id taken (close_conn c (write c w))
unfolding write
closed taken c old w s u f n o due = record {
  phase =
      close_conn-Phase c c (record w { conns = put c w.conns }) _ s
        (rw (count_id-put c.id c w.conns) u) (find-put_self c old w.conns f) o n due;
}

module _ (taken : List HookResult) (c : Conn) (w : Worker) (s : c.id < max_id)
    (u : count_id c.id w.conns ≤ 1) (f : find c.id w.conns ≡ some c) (n : c.closing ≡ false) where
  pub of_reject_send :
      (res : ℤ)
      → IsOpen c (add_op Ops.reject_send (tokens c.id w.posted)) (deciding c.id taken w)
      → InPhase c.id taken (reject_send_open res c w)
  unfolding reject_send_open
  of_reject_send res o =
      let c' : Conn = record c { reply_off = c.reply_off + pos_part res } in
      if-rule (InPhase c.id taken) (is_nonpos res)
        (λ _. record { phase = close_conn-Phase c c w _ s u f o.no_close n (ground arith) })
        (λ _.
          reply-InPhase taken c w s u f n Ops.reject_send res close_conn o
            (closed taken c' c w s u f n o.no_close (ground arith)))

  pub of_send_up :
      (lim : Limits) (res : ℤ)
      → IsOpen c (add_op Ops.send_up (tokens c.id w.posted)) (deciding c.id taken w)
      → InPhase c.id taken (send_up_open lim res c w)
  unfolding send_up_open write post
  of_send_up lim res o =
      let c' : Conn = record c { init_sent = c.init_sent + pos_part res } in
      let w1 = count_c2u (pos_part res) (write c' w) in
      let d = deciding c.id taken w in
      if-rule (InPhase c.id taken) (is_nonpos res) (λ _. failed taken c w s u f n o.no_close)
        (λ _.
          if-rule (InPhase c.id taken) (ltb c'.init_sent c'.req_n)
            (λ _. record { phase = reissue c' c w d f Ops.send_up _ s refl n (ground arith) })
            (λ _.
              start_duplex-InPhase c' c' w1 d (find-put_self c' c w.conns f) taken lim refl s n
                (ground arith)))
