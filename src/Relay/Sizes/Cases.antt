-- ===== src/Relay/Sizes/Cases.antt =====
-- The cases of the `switch` of research/gate/cmd/relay-uring/main.go keep the lengths of the buffers.
use flash_relay.Base.{
  ℕ, ◌+◌, ◌-◌, List, [], ◌∷◌, Option, inl, inr, true, not, ◌&&◌, leb, ltb, length, replicate,
  if-rule, Option-cases,
}
use flash_relay.Base.Int.{ℤ, is_neg, is_nonpos, is_pos, pos_part}
use flash_relay.Base.Words.{add64}
use flash_relay.Base.Table.{lookup, delete, EachValue-lookup}
use flash_relay.Relay.State.{Pipe, Conn, HookResult, RelayCfg, Relay, shutdown_wr, make_pipe}
use flash_relay.Relay.Actions.{post, syscall, write, post_eventfd}
use flash_relay.Relay.Cases.{
  count_err, admit, on_accept, on_hook_result, on_hook_results, on_eventfd, recv_req_found,
  start_splice, start_duplex, send_up_found, recv_resp_found, send_client_found, close_found,
  pipe_or, failed,
}
use flash_relay.Relay.Duplex.{
  c2u_recv_open, c2u_send_open, u2c_recv_open, u2c_send_open, c2u_splice_in_open,
  c2u_splice_out_open, u2c_splice_in_open, u2c_splice_out_open,
}
use flash_relay.Relay.Sizes.{
  Sized, Buffered, get_conn-Buffered, put_conn-Buffered, write-Buffered, deleted-Buffered,
  close_conn-Buffered,
}

module _ (cfg : RelayCfg) where
  admit-Buffered : (fd : ℤ) (w : Relay) → Buffered cfg w → Buffered cfg (admit cfg fd w)
  unfolding admit post
  admit-Buffered fd w h =
      let id = add64 w.next_id 1 in
      let got = get_conn-Buffered cfg (record w { next_id = id }) h in
      write-Buffered cfg _ _ got.0 got.1

  pub on_accept-Buffered :
      (k : ℕ) (res : ℤ) (w : Relay) → Buffered cfg w → Buffered cfg (on_accept cfg k res w)
  unfolding on_accept post
  on_accept-Buffered k res w h =
      if-rule (Buffered cfg) (is_neg res) (λ _. h)
        (λ _.
          if-rule (Buffered cfg) (leb cfg.max_conns (length w.conns)) (λ _. h)
            (λ _. admit-Buffered res _ h))

  on_hook_result-Buffered :
      (r : HookResult) (w : Relay) → Buffered cfg w → Buffered cfg (on_hook_result cfg r w)
  unfolding on_hook_result post syscall
  on_hook_result-Buffered r w h = elim (Option-cases (lookup r.id w.conns)) [
    | inl e ↦
        rw (e, on_hook_result)
          (if-rule (Buffered cfg) (r.ok && is_pos r.upstream_fd) (λ _. h) (λ _. h))
    | inr (c, e) ↦
        let s = EachValue-lookup (Sized cfg) r.id c w.conns h.1 e in
        rw (e, on_hook_result)
          (if-rule (Buffered cfg) (not r.ok) (λ _. close_conn-Buffered cfg c (count_err w) s h)
            (λ _. write-Buffered cfg (record c { upstream_fd = r.upstream_fd }) w s h))
  ]

  on_hook_results-Buffered :
      (rs : List HookResult) (w : Relay) → Buffered cfg w → Buffered cfg (on_hook_results cfg rs w)
  unfolding on_hook_results
  on_hook_results-Buffered [] w h = h
  on_hook_results-Buffered (r ∷ rs) w h =
      on_hook_results-Buffered rs _ (on_hook_result-Buffered r w h)

  pub on_eventfd-Buffered : (w : Relay) → Buffered cfg w → Buffered cfg (on_eventfd cfg w)
  unfolding on_eventfd post_eventfd post
  on_eventfd-Buffered w h = on_hook_results-Buffered _ _ h

-- The cases that find their connection.
module _ (cfg : RelayCfg) (w : Relay) (h : Buffered cfg w) (c : Conn) (s : Sized cfg c) where
  pub recv_req-Buffered : (res : ℤ) → Buffered cfg (recv_req_found cfg res c w)
  unfolding recv_req_found
  recv_req-Buffered res =
      if-rule (Buffered cfg) (is_nonpos res) (λ _. close_conn-Buffered cfg c (count_err w) s h)
        (λ _. write-Buffered cfg (record c { req_n = pos_part res }) w s h)

  start_splice-Buffered : (p q : Option Pipe) → Buffered cfg (start_splice cfg p q c w)
  unfolding start_splice post syscall
  start_splice-Buffered p q =
      let c1 : Conn = record c { c2u_pipe = pipe_or p c.c2u_pipe } in
      let h1 = write-Buffered cfg c1 (syscall (make_pipe p) w) s h in
      let c2 : Conn = record c1 { u2c_pipe = pipe_or q c1.u2c_pipe } in
      let h2 =
        write-Buffered cfg c2 (syscall (make_pipe q) (write c1 (syscall (make_pipe p) w))) s h1 in
      if-rule (Buffered cfg) (failed p) (λ _. close_conn-Buffered cfg c1 _ s h1)
        (λ _. if-rule (Buffered cfg) (failed q) (λ _. close_conn-Buffered cfg c2 _ s h2) (λ _. h2))

  start_duplex-Buffered : Buffered cfg (start_duplex cfg c w)
  unfolding start_duplex post
  start_duplex-Buffered =
      let room = replicate cfg.buf_size 0 in
      write-Buffered cfg (record c { c2u_buf = room; u2c_buf = room }) w s h

  pub send_up-Buffered :
      (p q : Option Pipe) (res : ℤ) → Buffered cfg (send_up_found cfg p q res c w)
  unfolding send_up_found post
  send_up-Buffered p q res =
      if-rule (Buffered cfg) (is_neg res) (λ _. close_conn-Buffered cfg c (count_err w) s h)
        (λ _.
          if-rule (Buffered cfg) (cfg.duplex && cfg.splice) (λ _. start_splice-Buffered p q)
            (λ _. if-rule (Buffered cfg) cfg.duplex (λ _. start_duplex-Buffered) (λ _. h)))

  pub recv_resp-Buffered : (res : ℤ) → Buffered cfg (recv_resp_found cfg res c w)
  unfolding recv_resp_found post
  recv_resp-Buffered res =
      if-rule (Buffered cfg) (is_nonpos res) (λ _. close_conn-Buffered cfg c (count_err w) s h)
        (λ _. h)

  pub send_client-Buffered : (res : ℤ) → Buffered cfg (send_client_found cfg res c w)
  unfolding send_client_found
  send_client-Buffered res =
      close_conn-Buffered cfg c _ s (if-rule (Buffered cfg) (is_neg res) (λ _. h) (λ _. h))

  pub close-Buffered : (cid : ℕ) → Buffered cfg (close_found cfg cid c w)
  unfolding close_found
  close-Buffered cid =
      let c' : Conn = record c { closes_left = c.closes_left - 1 } in
      let w1 = write c' w in
      let wrote = write-Buffered cfg c' w s h in
      if-rule (Buffered cfg) (leb c'.closes_left 0)
        (λ _.
          put_conn-Buffered cfg c' (record w1 { conns = delete cid w1.conns }) s
            (deleted-Buffered cfg cid w1 wrote))
        (λ _. wrote)

-- Those of the relay in both directions.
module _ (cfg : RelayCfg) (w : Relay) (h : Buffered cfg w) (c : Conn) (s : Sized cfg c) where
  pub c2u_recv-Buffered : (res : ℤ) → Buffered cfg (c2u_recv_open cfg res c w)
  unfolding c2u_recv_open post syscall
  c2u_recv-Buffered res =
      let c' : Conn = record c { client_read_done = true } in
      let wrote = write-Buffered cfg c' (syscall (shutdown_wr c.upstream_fd) w) s h in
      if-rule (Buffered cfg) (is_neg res) (λ _. close_conn-Buffered cfg c w s h)
        (λ _.
          if-rule (Buffered cfg) (is_nonpos res)
            (λ _.
              if-rule (Buffered cfg) c.upstream_read_done
                (λ _. close_conn-Buffered cfg c' _ s wrote) (λ _. wrote))
            (λ _. write-Buffered cfg _ w s h))

  pub c2u_send-Buffered : (res : ℤ) → Buffered cfg (c2u_send_open cfg res c w)
  unfolding c2u_send_open post
  c2u_send-Buffered res =
      let c' : Conn = record c { c2u_off = c.c2u_off + pos_part res } in
      let wrote = write-Buffered cfg c' w s h in
      if-rule (Buffered cfg) (is_nonpos res) (λ _. close_conn-Buffered cfg c w s h)
        (λ _.
          if-rule (Buffered cfg) (ltb c'.c2u_off c.c2u_end) (λ _. wrote)
            (λ _. if-rule (Buffered cfg) c.client_read_done (λ _. wrote) (λ _. wrote)))

  pub u2c_recv-Buffered : (res : ℤ) → Buffered cfg (u2c_recv_open cfg res c w)
  unfolding u2c_recv_open post syscall
  u2c_recv-Buffered res =
      let c' : Conn = record c { upstream_read_done = true } in
      let wrote = write-Buffered cfg c' (syscall (shutdown_wr c.client_fd) w) s h in
      if-rule (Buffered cfg) (is_neg res) (λ _. close_conn-Buffered cfg c w s h)
        (λ _.
          if-rule (Buffered cfg) (is_nonpos res)
            (λ _.
              if-rule (Buffered cfg) c.client_read_done (λ _. close_conn-Buffered cfg c' _ s wrote)
                (λ _. wrote))
            (λ _. write-Buffered cfg _ w s h))

  pub u2c_send-Buffered : (res : ℤ) → Buffered cfg (u2c_send_open cfg res c w)
  unfolding u2c_send_open post
  u2c_send-Buffered res =
      let c' : Conn = record c { u2c_off = c.u2c_off + pos_part res } in
      let wrote = write-Buffered cfg c' w s h in
      if-rule (Buffered cfg) (is_nonpos res) (λ _. close_conn-Buffered cfg c w s h)
        (λ _.
          if-rule (Buffered cfg) (ltb c'.u2c_off c.u2c_end) (λ _. wrote)
            (λ _. if-rule (Buffered cfg) c.upstream_read_done (λ _. wrote) (λ _. wrote)))

  pub c2u_splice_in-Buffered : (res : ℤ) → Buffered cfg (c2u_splice_in_open cfg res c w)
  unfolding c2u_splice_in_open post
  c2u_splice_in-Buffered res =
      if-rule (Buffered cfg) (is_nonpos res) (λ _. close_conn-Buffered cfg c w s h) (λ _. h)

  pub c2u_splice_out-Buffered : (res : ℤ) → Buffered cfg (c2u_splice_out_open cfg res c w)
  unfolding c2u_splice_out_open post
  c2u_splice_out-Buffered res =
      if-rule (Buffered cfg) (is_nonpos res) (λ _. close_conn-Buffered cfg c w s h)
        (λ _. write-Buffered cfg _ w s h)

  pub u2c_splice_in-Buffered : (res : ℤ) → Buffered cfg (u2c_splice_in_open cfg res c w)
  unfolding u2c_splice_in_open post
  u2c_splice_in-Buffered res =
      if-rule (Buffered cfg) (is_nonpos res) (λ _. close_conn-Buffered cfg c w s h) (λ _. h)

  pub u2c_splice_out-Buffered : (res : ℤ) → Buffered cfg (u2c_splice_out_open cfg res c w)
  unfolding u2c_splice_out_open post
  u2c_splice_out-Buffered res =
      if-rule (Buffered cfg) (is_nonpos res) (λ _. close_conn-Buffered cfg c w s h)
        (λ _. write-Buffered cfg _ w s h)
