-- ===== src/Relay/Sizes/Runs.antt =====
-- Every run of a worker of research/gate/cmd/relay-uring/main.go keeps the lengths of the buffers.
use flash_relay.Base.{
  ℕ, zero, suc, ◌+◌, ◌≡◌, ◌∙◌, ◌&&◌, if◌then◌else◌, List, [], ◌∷◌, ◌++◌, inl, inr, arith, ltb,
  length, length-append, length-take, length-drop, take, drop, get_elem?, get_or, if-rule,
  Option-cases,
}
use flash_relay.Base.Int.{ℤ}
use flash_relay.Base.Sums.{remove_at}
use flash_relay.Base.Table.{lookup, EachValue-lookup}
use flash_relay.Worker.Ops.{unpack}
use flash_relay.Worker.Kernel.{overwrite}
use flash_relay.Relay.State.{Conn, RelayCfg, Tag, Relay}
use flash_relay.Relay.Ops
use flash_relay.Relay.Ops.{Op, op_code, op_case}
use flash_relay.Relay.Actions.{post, post_accept, per_ln, post_eventfd, post_timeout}
use flash_relay.Relay.Cases.{
  on_recv_req, on_send_up, on_recv_resp, on_send_client, on_close, recv_req_found, send_up_found,
  recv_resp_found, send_client_found, close_found,
}
use flash_relay.Relay.Duplex.{
  c2u_recv_open, c2u_send_open, u2c_recv_open, u2c_send_open, c2u_splice_in_open,
  c2u_splice_out_open, u2c_splice_in_open, u2c_splice_out_open, with_open, on_c2u_recv, on_c2u_send,
  on_u2c_recv, on_u2c_send, on_c2u_splice_in, on_c2u_splice_out, on_u2c_splice_in,
  on_u2c_splice_out,
}
use flash_relay.Relay.Loop.{
  Completion, on_op, handle, top_up_one, top_up_from, top_up, locals, accept_from, start,
}
use flash_relay.Relay.Kernel.{
  tag_of, receive_into, deliver, Event, completes, decides, tops_up, complete, decide, step, run,
}
use flash_relay.Relay.Sizes.{Sized, Buffered, write-Buffered, with_conn-Buffered}
use flash_relay.Relay.Sizes.Cases.{
  on_accept-Buffered, on_eventfd-Buffered, recv_req-Buffered, send_up-Buffered, recv_resp-Buffered,
  send_client-Buffered, close-Buffered, c2u_recv-Buffered, c2u_send-Buffered, u2c_recv-Buffered,
  u2c_send-Buffered, c2u_splice_in-Buffered, c2u_splice_out-Buffered, u2c_splice_in-Buffered,
  u2c_splice_out-Buffered,
}

length-overwrite : (off : ℕ) (bytes buf : List ℕ) → length (overwrite off bytes buf) ≡ length buf
length-overwrite off bytes buf =
    let tail = drop (off + length bytes) buf in
    omega (
      arith,
      length-take (length buf) (take off buf ++ (bytes ++ tail)),
      length-append (take off buf) (bytes ++ tail),
      length-append bytes tail,
      length-take off buf,
      length-drop (off + length bytes) buf,
    )

receive_into-Sized :
    (cfg : RelayCfg) (op : Op) (bytes : List ℕ) (c : Conn)
    → Sized cfg c
    → Sized cfg (receive_into op bytes c)
receive_into-Sized cfg Ops.recv_req bytes c s = (length-overwrite 0 bytes c.req_buf ∙ s.0, s.1)
receive_into-Sized cfg Ops.recv_resp bytes c s = (s.0, length-overwrite 0 bytes c.resp_buf ∙ s.1)
receive_into-Sized cfg _ bytes c s = s

module _ (cfg : RelayCfg) where
  -- The cases that pass over a connection that is closing.
  with_open-Buffered :
      (cid : ℕ) (rest : Conn → Relay → Relay) (w : Relay)
      → Buffered cfg w
      → ((c : Conn) → Sized cfg c → Buffered cfg (rest c w))
      → Buffered cfg (with_open cid rest w)
  with_open-Buffered cid rest w h go =
      with_conn-Buffered cfg cid (λ cc v. if cc.closing then v else rest cc v) w h
        (λ c s. if-rule (Buffered cfg) c.closing (λ _. h) (λ _. go c s))

  on_op-Buffered :
      (cid : ℕ) (e : Completion) (op : Op) (w : Relay)
      → Buffered cfg w
      → Buffered cfg (on_op cfg cid e op w)
  unfolding on_op on_recv_req on_send_up on_recv_resp on_send_client on_close on_c2u_recv
      on_c2u_send on_u2c_recv on_u2c_send on_c2u_splice_in on_c2u_splice_out on_u2c_splice_in
      on_u2c_splice_out post_timeout post
  on_op-Buffered cid e Ops.accept w h = on_accept-Buffered cfg cid e.res w h
  on_op-Buffered cid e Ops.eventfd w h = on_eventfd-Buffered cfg w h
  on_op-Buffered cid e Ops.timeout w h = h
  on_op-Buffered cid e Ops.recv_req w h =
      with_conn-Buffered cfg cid (recv_req_found cfg e.res) w h
        (λ c s. recv_req-Buffered cfg w h c s e.res)
  on_op-Buffered cid e Ops.send_up w h =
      with_conn-Buffered cfg cid (send_up_found cfg e.first_pipe e.second_pipe e.res) w h
        (λ c s. send_up-Buffered cfg w h c s e.first_pipe e.second_pipe e.res)
  on_op-Buffered cid e Ops.recv_resp w h =
      with_conn-Buffered cfg cid (recv_resp_found cfg e.res) w h
        (λ c s. recv_resp-Buffered cfg w h c s e.res)
  on_op-Buffered cid e Ops.send_client w h =
      with_conn-Buffered cfg cid (send_client_found cfg e.res) w h
        (λ c s. send_client-Buffered cfg w h c s e.res)
  on_op-Buffered cid e Ops.close w h =
      with_conn-Buffered cfg cid (close_found cfg cid) w h (λ c s. close-Buffered cfg w h c s cid)
  on_op-Buffered cid e Ops.c2u_recv w h =
      with_open-Buffered cid (c2u_recv_open cfg e.res) w h
        (λ c s. c2u_recv-Buffered cfg w h c s e.res)
  on_op-Buffered cid e Ops.c2u_send w h =
      with_open-Buffered cid (c2u_send_open cfg e.res) w h
        (λ c s. c2u_send-Buffered cfg w h c s e.res)
  on_op-Buffered cid e Ops.u2c_recv w h =
      with_open-Buffered cid (u2c_recv_open cfg e.res) w h
        (λ c s. u2c_recv-Buffered cfg w h c s e.res)
  on_op-Buffered cid e Ops.u2c_send w h =
      with_open-Buffered cid (u2c_send_open cfg e.res) w h
        (λ c s. u2c_send-Buffered cfg w h c s e.res)
  on_op-Buffered cid e Ops.c2u_splice_in w h =
      with_open-Buffered cid (c2u_splice_in_open cfg e.res) w h
        (λ c s. c2u_splice_in-Buffered cfg w h c s e.res)
  on_op-Buffered cid e Ops.c2u_splice_out w h =
      with_open-Buffered cid (c2u_splice_out_open cfg e.res) w h
        (λ c s. c2u_splice_out-Buffered cfg w h c s e.res)
  on_op-Buffered cid e Ops.u2c_splice_in w h =
      with_open-Buffered cid (u2c_splice_in_open cfg e.res) w h
        (λ c s. u2c_splice_in-Buffered cfg w h c s e.res)
  on_op-Buffered cid e Ops.u2c_splice_out w h =
      with_open-Buffered cid (u2c_splice_out_open cfg e.res) w h
        (λ c s. u2c_splice_out-Buffered cfg w h c s e.res)

  handle-Buffered : (e : Completion) (w : Relay) → Buffered cfg w → Buffered cfg (handle cfg e w)
  unfolding handle
  handle-Buffered e w h =
      let opened = unpack e.user_data in
      elim (Option-cases (op_case opened.1)) [
        | inl no_op ↦ rw (no_op, handle) h
        | inr (o, is) ↦ rw (is, handle) (on_op-Buffered opened.0 e o w h)
      ]

  deliver-Buffered :
      (t : Tag) (bytes : List ℕ) (w : Relay) → Buffered cfg w → Buffered cfg (deliver t bytes w)
  unfolding deliver
  deliver-Buffered t bytes w h = elim (Option-cases (lookup t.id w.conns)) [
    | inl e ↦ rw (e, deliver) h
    | inr (c, e) ↦
        let s = EachValue-lookup (Sized cfg) t.id c w.conns h.1 e in
        rw (e, deliver)
          (write-Buffered cfg (receive_into t.op bytes c) w (receive_into-Sized cfg t.op bytes c s)
            h)
  ]

  top_up_one-Buffered :
      (fuel k : ℕ) (w : Relay) → Buffered cfg w → Buffered cfg (top_up_one fuel cfg k w)
  unfolding top_up_one post_accept post
  top_up_one-Buffered zero k w h = h
  top_up_one-Buffered (suc fuel) k w h =
      if-rule (Buffered cfg)
        (ltb (get_or w.accept_inflight k 0) (per_ln cfg)
          && ltb (length w.conns + w.total_accepts) cfg.max_conns)
        (λ _. top_up_one-Buffered fuel k (post_accept cfg k w) h) (λ _. h)

  top_up_from-Buffered :
      (k : ℕ) (lns : List ℤ) (w : Relay) → Buffered cfg w → Buffered cfg (top_up_from cfg k lns w)
  unfolding top_up_from
  top_up_from-Buffered k [] w h = h
  top_up_from-Buffered k (ln ∷ lns) w h =
      top_up_from-Buffered (suc k) lns (top_up_one (per_ln cfg) cfg k w)
        (top_up_one-Buffered (per_ln cfg) k w h)

  step-Buffered : (e : Event) (w : Relay) → Buffered cfg w → Buffered cfg (step cfg e w)
  unfolding step complete decide top_up
  step-Buffered (completes i res bytes p q) w h = elim (Option-cases (get_elem? w.posted i)) [
    | inl e ↦ rw (e, complete) h
    | inr (r, e) ↦
        let w1 : Relay = record w { posted = remove_at i w.posted } in
        rw (e, complete)
          (handle-Buffered _ (deliver (tag_of r) bytes w1) (deliver-Buffered (tag_of r) bytes w1 h))
  ]
  step-Buffered (decides i fd ok) w h = elim (Option-cases (get_elem? w.jobs i)) [
    | inl e ↦ rw (e, decide) h
    | inr (id, e) ↦ rw (e, decide) h
  ]
  step-Buffered tops_up w h = top_up_from-Buffered 0 cfg.lns w h

  run-Buffered : (es : List Event) (w : Relay) → Buffered cfg w → Buffered cfg (run cfg es w)
  unfolding run
  run-Buffered [] w h = h
  run-Buffered (e ∷ es) w h = run-Buffered es (step cfg e w) (step-Buffered e w h)

  accept_from-Buffered :
      (k : ℕ) (lns : List ℤ) (w : Relay) → Buffered cfg w → Buffered cfg (accept_from cfg k lns w)
  unfolding accept_from post_accept post
  accept_from-Buffered k [] w h = h
  accept_from-Buffered k (ln ∷ lns) w h = accept_from-Buffered (suc k) lns (post_accept cfg k w) h

  pub always-Buffered : (es : List Event) → Buffered cfg (run cfg es (start cfg))
  unfolding start post_timeout post_eventfd post
  always-Buffered es =
      run-Buffered es (start cfg) (accept_from-Buffered 0 cfg.lns (locals cfg) (tt, tt))
