-- ===== src/Worker/Footprint/Cases.antt =====
-- Any such preorder contains the completion cases of flashrelay/worker.go that concern one
-- connection.
use flash_relay.Base.{ℕ, ◌+◌, ◌-◌, ◌≡◌, refl, not, ◌&&◌, ltb, leb, inl, inr, if-rule, Option-cases}
use flash_relay.Base.Int.{ℤ, pos_part, is_neg, is_nonpos}
use flash_relay.Worker.State.{Conn, Limits, Worker}
use flash_relay.Worker.Ops
use flash_relay.Worker.Ops.{Op}
use flash_relay.Worker.Conns.{find, find-id, delete}
use flash_relay.Worker.Actions.{write}
use flash_relay.Worker.Handlers.{
  recv_req_open, reply_client_open, reply_more_open, reject_send_open, send_up_open, c2u_recv_open,
  c2u_send_open, u2c_recv_open, u2c_send_open, with_conn, with_conn-rule, reply_progress,
  on_recv_req, on_reply_client, on_reply_more, on_reject_send, on_send_up, on_c2u_recv, on_c2u_send,
  on_u2c_recv, on_u2c_send, on_close,
}
use flash_relay.Worker.Footprint.{
  Contains, IsTransfer, reply_client, reply_more, send_up, reject_send, c2u_recv, c2u_send,
  u2c_recv, u2c_send,
}
use flash_relay.Worker.Footprint.Closures.{
  on_close_conn, on_fail, on_start_duplex, on_post_recv_req, on_forward_init,
}

module _ (cid : ℕ) (R : Worker → Worker → Type 0) (l : Contains cid R) where
  -- The rest of a case is about the connection that has the id.
  with_found :
      (rest : Conn → Worker → Worker)
      → ((c : Conn) (w : Worker) → c.id ≡ cid → R w (rest c w))
      → (w : Worker) → R w (with_conn cid rest w)
  with_found rest h w =
      with_conn-rule (R w) cid rest w (l.same w) (λ c e _. h c w (find-id cid c w.conns e))

  progress :
      (op : Op) (res : ℤ) (done : Conn → Worker → Worker)
      → IsTransfer op
      → ((c : Conn) (w : Worker) → c.id ≡ cid → R w (done c w))
      → (c : Conn) (w : Worker) → c.id ≡ cid
      → R w (reply_progress op res done c w)
  progress op res done o h c w e =
      if-rule (R w) (ltb (c.reply_off + pos_part res) c.reply_end)
        (λ _. l.then _ _ _ (l.writes _ w e) (l.sends c.id op _ _ _ e o))
        (λ _. l.then _ _ _ (l.writes _ w e) (h _ _ e))

  pub of_recv_req : (res : ℤ) (w : Worker) → R w (on_recv_req cid res w)
  unfolding on_recv_req recv_req_open
  of_recv_req res = with_found _ λ c w e.
      if-rule (R w) (is_nonpos res) (λ _. on_fail cid R l c w e)
        (λ _. l.then _ _ _ (l.writes _ w e) (l.queues _ _ e))

  pub of_reply_client : (lim : Limits) (res : ℤ) (w : Worker) → R w (on_reply_client lim cid res w)
  unfolding on_reply_client reply_client_open
  of_reply_client lim res = with_found _ λ c w e.
      if-rule (R w) (is_nonpos res) (λ _. on_fail cid R l c w e)
        (λ _. progress Ops.reply_client res _ reply_client (on_forward_init cid R l lim) c w e)

  pub of_reply_more : (res : ℤ) (w : Worker) → R w (on_reply_more cid res w)
  unfolding on_reply_more reply_more_open
  of_reply_more res = with_found _ λ c w e.
      if-rule (R w) (is_nonpos res) (λ _. on_fail cid R l c w e)
        (λ _. progress Ops.reply_more res _ reply_more (on_post_recv_req cid R l) c w e)

  pub of_reject_send : (res : ℤ) (w : Worker) → R w (on_reject_send cid res w)
  unfolding on_reject_send reject_send_open
  of_reject_send res = with_found _ λ c w e.
      if-rule (R w) (is_nonpos res) (λ _. on_close_conn cid R l c w e)
        (λ _. progress Ops.reject_send res _ reject_send (on_close_conn cid R l) c w e)

  pub of_send_up : (lim : Limits) (res : ℤ) (w : Worker) → R w (on_send_up lim cid res w)
  unfolding on_send_up send_up_open
  of_send_up lim res = with_found _ λ c w e.
      if-rule (R w) (is_nonpos res) (λ _. on_fail cid R l c w e)
        (λ _.
          if-rule (R w) (ltb (c.init_sent + pos_part res) c.req_n)
            (λ _.
              l.then _ _ _ (l.writes _ w e)
                (l.then _ _ _ (l.counts _ _ refl) (l.sends c.id Ops.send_up _ _ _ e send_up)))
            (λ _.
              l.then _ _ _ (l.writes _ w e)
                (l.then _ _ _ (l.counts _ _ refl) (on_start_duplex cid R l lim _ _ e))))

  pub of_c2u_recv : (res : ℤ) (w : Worker) → R w (on_c2u_recv cid res w)
  unfolding on_c2u_recv c2u_recv_open
  of_c2u_recv res = with_found _ λ c w e.
      if-rule (R w) (is_neg res) (λ _. on_fail cid R l c w e)
        (λ _.
          if-rule (R w) (is_nonpos res)
            (λ _.
              if-rule (R w) c.upstream_read_done
                (λ _.
                  l.then _ _ _ (l.calls _ w)
                    (l.then _ _ _ (l.writes _ _ e) (on_close_conn cid R l _ _ e)))
                (λ _. l.then _ _ _ (l.calls _ w) (l.writes _ _ e)))
            (λ _.
              l.then _ _ _ (l.counts _ w refl)
                (l.then _ _ _ (l.writes _ _ e) (l.sends c.id Ops.c2u_send _ _ _ e c2u_send))))

  pub of_c2u_send : (res : ℤ) (w : Worker) → R w (on_c2u_send cid res w)
  unfolding on_c2u_send c2u_send_open
  of_c2u_send res = with_found _ λ c w e.
      if-rule (R w) (is_nonpos res) (λ _. on_fail cid R l c w e)
        (λ _.
          if-rule (R w) (ltb (c.c2u_off + pos_part res) c.c2u_end)
            (λ _. l.then _ _ _ (l.writes _ w e) (l.sends c.id Ops.c2u_send _ _ _ e c2u_send))
            (λ _.
              if-rule (R w) c.client_read_done (λ _. l.writes _ w e)
                (λ _.
                  l.then _ _ _ (l.writes _ w e) (l.receives c.id Ops.c2u_recv _ _ _ e c2u_recv))))

  pub of_u2c_recv : (res : ℤ) (w : Worker) → R w (on_u2c_recv cid res w)
  unfolding on_u2c_recv u2c_recv_open
  of_u2c_recv res = with_found _ λ c w e.
      if-rule (R w) (is_neg res) (λ _. on_fail cid R l c w e)
        (λ _.
          if-rule (R w) (is_nonpos res)
            (λ _.
              if-rule (R w) c.client_read_done
                (λ _.
                  l.then _ _ _ (l.calls _ w)
                    (l.then _ _ _ (l.writes _ _ e) (on_close_conn cid R l _ _ e)))
                (λ _. l.then _ _ _ (l.calls _ w) (l.writes _ _ e)))
            (λ _.
              l.then _ _ _ (l.counts _ w refl)
                (l.then _ _ _ (l.writes _ _ e) (l.sends c.id Ops.u2c_send _ _ _ e u2c_send))))

  pub of_u2c_send : (res : ℤ) (w : Worker) → R w (on_u2c_send cid res w)
  unfolding on_u2c_send u2c_send_open
  of_u2c_send res = with_found _ λ c w e.
      if-rule (R w) (is_nonpos res) (λ _. on_fail cid R l c w e)
        (λ _.
          if-rule (R w) (ltb (c.u2c_off + pos_part res) c.u2c_end)
            (λ _. l.then _ _ _ (l.writes _ w e) (l.sends c.id Ops.u2c_send _ _ _ e u2c_send))
            (λ _.
              if-rule (R w) c.upstream_read_done (λ _. l.writes _ w e)
                (λ _.
                  l.then _ _ _ (l.writes _ w e) (l.receives c.id Ops.u2c_recv _ _ _ e u2c_recv))))

  pub of_close : (w : Worker) → R w (on_close cid w)
  unfolding on_close
  of_close w = elim (Option-cases (find cid w.conns)) [
    | inl e ↦ rw (e, on_close) (l.same w)
    | inr (c, e) ↦
        let c' : Conn = record c { closes_left = c.closes_left - 1 } in
        let w1 = write c' w in
        let written = l.writes c' w (find-id cid c w.conns e) in
        rw (e, on_close)
          (if-rule (R w) (leb c'.closes_left 0)
            (λ _. l.then _ _ _ written (
              if-rule (λ v. R w1 (record v { conns = delete cid v.conns }))
                (not c.counted && c.relay_started)
                (λ _. l.then _ _ _ (l.counts _ w1 refl) (l.deletes cid _ refl))
                (λ _. l.deletes cid w1 refl)))
            (λ _. written))
  ]
