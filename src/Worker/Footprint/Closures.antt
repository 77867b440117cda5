-- ===== src/Worker/Footprint/Closures.antt =====
-- Any such preorder contains the closures of flashrelay/worker.go.
use flash_relay.Base.{ℕ, ◌≡◌, refl, true, leb, ◌==◌, if-rule}
use flash_relay.Base.Int.{ℤ, is_pos}
use flash_relay.Worker.State.{Conn, Limits, Worker}
use flash_relay.Worker.Ops
use flash_relay.Worker.Actions.{
  write, post_close, close_conn, start_duplex, fail, post_recv_req, forward_init, fds_to_close,
  count_dead, count_errors,
}
use flash_relay.Worker.Footprint.{Contains, send_up, recv_req, c2u_recv, u2c_recv}

module _ (cid : ℕ) (R : Worker → Worker → Type 0) (l : Contains cid R) where
  pub on_post_close : (id : ℕ) (fd : ℤ) (w : Worker) → id ≡ cid → R w (post_close id fd w)
  unfolding post_close
  on_post_close id fd w e = if-rule (R w) (is_pos fd) (λ _. l.closes id fd w e) (λ _. l.same w)

  pub on_close_conn : (c : Conn) (w : Worker) → c.id ≡ cid → R w (close_conn c w)
  unfolding close_conn
  on_close_conn c w e =
      if-rule (R w) c.closing (λ _. l.same w)
        (λ _.
          if-rule (R w) (fds_to_close c == 0) (λ _. l.then _ _ _ closed (l.deletes c.id _ e))
            (λ _. closed))
    where
      marked : Conn
      marked = record c { closing = true; closes_left = fds_to_close c }

      w1 : Worker
      w1 = write marked (count_dead w)

      closed : R w (post_close c.id c.upstream_fd (post_close c.id c.client_fd w1))
      closed = l.then _ _ _ (l.counts _ w refl) (
          l.then _ _ _ (l.writes marked (count_dead w) e) (
            l.then _ _ _ (on_post_close c.id c.client_fd w1 e)
              (on_post_close c.id c.upstream_fd _ e)))

  pub on_fail : (c : Conn) (w : Worker) → c.id ≡ cid → R w (fail c w)
  unfolding fail
  on_fail c w e =
      if-rule (R w) c.counted (λ _. on_close_conn c w e)
        (λ _. l.then _ _ _ (l.counts _ w refl) (
          l.then _ _ _ (l.writes (record c { counted = true }) (count_errors w) e)
            (on_close_conn _ _ e)))

  pub on_start_duplex :
      (lim : Limits) (c : Conn) (w : Worker) → c.id ≡ cid → R w (start_duplex lim c w)
  unfolding start_duplex
  on_start_duplex lim c w e = l.then _ _ _ (l.writes _ w e) (
      l.then _ _ _ (l.receives c.id Ops.c2u_recv _ _ _ e c2u_recv)
        (l.receives c.id Ops.u2c_recv _ _ _ e u2c_recv))

  pub on_post_recv_req : (c : Conn) (w : Worker) → c.id ≡ cid → R w (post_recv_req c w)
  unfolding post_recv_req
  on_post_recv_req c w e = l.receives c.id Ops.recv_req _ _ w e recv_req

  pub on_forward_init :
      (lim : Limits) (c : Conn) (w : Worker) → c.id ≡ cid → R w (forward_init lim c w)
  unfolding forward_init
  on_forward_init lim c w e =
      if-rule (R w) (leb c.req_n c.init_sent) (λ _. on_start_duplex lim c w e)
        (λ _. l.then _ _ _ (l.writes c w e) (l.sends c.id Ops.send_up _ _ _ e send_up))
