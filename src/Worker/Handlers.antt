-- ===== src/Worker/Handlers.antt =====
-- flashrelay/worker.go: the cases of the completion `switch` that concern one connection.
-- Each takes the connection id and the result of the completion.
pub mod Hook
unfoldable pub use Hook.{on_eventfd}
use flash_relay.Base.{
  ℕ, ◌+◌, ◌-◌, true, false, not, ◌&&◌, [], ◌∷◌, ◌++◌, none, some, ltb, leb, if◌then◌else◌, take,
  replicate, length, ◌≡◌, inl, inr, Option-cases, if-rule,
}
use flash_relay.Base.Int.{ℤ, pos, pos_part, is_neg, is_nonpos}
use flash_relay.Base.Words.{add64}
use flash_relay.Worker.State.{Limits, Conn, Worker, recv, send, close, shutdown_wr}
use flash_relay.Worker.Ops
use flash_relay.Worker.Ops.{Op, ud, op_code}
use flash_relay.Worker.Conns.{find, delete}
use flash_relay.Worker.Actions.{
  slice, post, syscall, write, count_accepted, count_completed, count_shed, count_errors,
  count_live, count_c2u, count_u2c, close_conn, start_duplex, fail, post_recv_req, forward_init,
}

-- `cc := conns[cid]; if cc == nil || cc.closing { break }`, and the rest of the case.
abbrev pub with_conn : ℕ → (Conn → Worker → Worker) → Worker → Worker
with_conn cid rest w = elim (find cid w.conns) [
  | none ↦ w
  | some cc ↦ if cc.closing then w else rest cc w
]

-- The connection that `opAccept` makes.
abbrev pub new_conn : Limits → ℕ → ℤ → ℕ → Conn
new_conn lim id fd tick = record {
  id = id;
  client_fd = fd;
  upstream_fd = pos 0;
  req_buf = replicate lim.initial_req_len 0;
  req_n = 0;
  init_sent = 0;
  reply_buf = [];
  reply_off = 0;
  reply_end = 0;
  closing = false;
  closes_left = 0;
  relay_started = false;
  counted = false;
  last_tick = tick;
  c2u_buf = [];
  u2c_buf = [];
  c2u_off = 0;
  c2u_end = 0;
  u2c_off = 0;
  u2c_end = 0;
  client_read_done = false;
  upstream_read_done = false;
}

-- A fresh id is not in the map, so `conns[cc.id] = cc` adds an entry.
unfoldable pub admit : Limits → ℤ → Worker → Worker
admit lim fd w =
    let id = add64 w.next_id 1 in
    let cc = new_conn lim id fd w.tick in
    post (recv fd (length cc.req_buf) (ud id (op_code Ops.recv_req)))
      (count_live (record w { next_id = id; conns = cc ∷ w.conns }))

-- `case opAccept`. It runs only for an accept in flight, so the count is positive.
unfoldable pub on_accept : Limits → ℤ → Worker → Worker
on_accept lim res w =
    let w1 : Worker = record w { accept_inflight = w.accept_inflight - 1 } in
    if is_neg res
    then count_errors w1
    else if leb lim.max_conns (length w1.conns)
    then post (close res (ud 0 (op_code Ops.close))) (count_shed (count_accepted w1))
    else admit lim res (count_accepted w1)

-- `case` of `on_recv_req`, for the connection that it finds open.
unfoldable pub recv_req_open : ℤ → Conn → Worker → Worker
recv_req_open res cc w =
    if is_nonpos res
    then fail cc w
    else let cc' : Conn = record cc { req_n = cc.req_n + pos_part res; last_tick = w.tick } in
      let w1 = write cc' w in
      record w1 {
        jobs =
            w1.jobs
            ++ record { id = cc'.id; client_fd = cc'.client_fd; req = take cc'.req_n cc'.req_buf }
              ∷ [];
      }

-- `case opRecvReq`
unfoldable pub on_recv_req : ℕ → ℤ → Worker → Worker
on_recv_req cid res = with_conn cid (recv_req_open res)

-- The part of the reply that is still to be sent, under the operation that is to report it.
abbrev pub send_reply : Op → Conn → Worker → Worker
send_reply op cc =
    post (send cc.client_fd (slice cc.reply_off cc.reply_end cc.reply_buf) (ud cc.id (op_code op)))

-- The common shape of the reply cases: count the progress, send the rest or go on.
abbrev pub reply_progress : Op → ℤ → (Conn → Worker → Worker) → Conn → Worker → Worker
reply_progress op res done cc w =
    let cc' : Conn = record cc { reply_off = cc.reply_off + pos_part res } in
    if ltb cc'.reply_off cc'.reply_end
    then send_reply op cc' (write cc' w)
    else done cc' (write cc' w)

-- `case` of `on_reply_client`, for the connection that it finds open.
unfoldable pub reply_client_open : Limits → ℤ → Conn → Worker → Worker
reply_client_open lim res cc w =
    if is_nonpos res then fail cc w else reply_progress Ops.reply_client res (forward_init lim) cc w

-- `case opReplyClient`
unfoldable pub on_reply_client : Limits → ℕ → ℤ → Worker → Worker
on_reply_client lim cid res = with_conn cid (reply_client_open lim res)

-- `case` of `on_reply_more`, for the connection that it finds open.
unfoldable pub reply_more_open : ℤ → Conn → Worker → Worker
reply_more_open res cc w =
    if is_nonpos res then fail cc w else reply_progress Ops.reply_more res post_recv_req cc w

-- `case opReplyMore`
unfoldable pub on_reply_more : ℕ → ℤ → Worker → Worker
on_reply_more cid res = with_conn cid (reply_more_open res)

-- `case` of `on_reject_send`, for the connection that it finds open.
unfoldable pub reject_send_open : ℤ → Conn → Worker → Worker
reject_send_open res cc w =
    if is_nonpos res then close_conn cc w else reply_progress Ops.reject_send res close_conn cc w

-- `case opRejectSend`
unfoldable pub on_reject_send : ℕ → ℤ → Worker → Worker
on_reject_send cid res = with_conn cid (reject_send_open res)

-- `case` of `on_send_up`, for the connection that it finds open.
unfoldable pub send_up_open : Limits → ℤ → Conn → Worker → Worker
send_up_open lim res cc w =
    if is_nonpos res
    then fail cc w
    else let cc' : Conn = record cc { init_sent = cc.init_sent + pos_part res } in
      let w1 = count_c2u (pos_part res) (write cc' w) in
      if ltb cc'.init_sent cc'.req_n
      then post
          (send cc'.upstream_fd (slice cc'.init_sent cc'.req_n cc'.req_buf)
            (ud cc'.id (op_code Ops.send_up)))
          w1
      else start_duplex lim cc' w1

-- `case opSendUp`
unfoldable pub on_send_up : Limits → ℕ → ℤ → Worker → Worker
on_send_up lim cid res = with_conn cid (send_up_open lim res)

abbrev send_c2u : Conn → Worker → Worker
send_c2u cc =
    post (
      send cc.upstream_fd (slice cc.c2u_off cc.c2u_end cc.c2u_buf)
        (ud cc.id (op_code Ops.c2u_send)))

abbrev send_u2c : Conn → Worker → Worker
send_u2c cc =
    post
      (send cc.client_fd (slice cc.u2c_off cc.u2c_end cc.u2c_buf) (ud cc.id (op_code Ops.u2c_send)))

-- `case` of `on_c2u_recv`, for the connection that it finds open.
unfoldable pub c2u_recv_open : ℤ → Conn → Worker → Worker
c2u_recv_open res cc w =
    if is_neg res
    then fail cc w
    else if is_nonpos res
    then (let cc' : Conn = record cc { client_read_done = true } in
        let w1 = write cc' (syscall (shutdown_wr cc.upstream_fd) w) in
        if cc'.upstream_read_done then close_conn cc' w1 else w1)
    else let cc' : Conn = record cc { last_tick = w.tick; c2u_off = 0; c2u_end = pos_part res } in
      send_c2u cc' (write cc' (count_c2u (pos_part res) w))

-- `case opC2URecv`
unfoldable pub on_c2u_recv : ℕ → ℤ → Worker → Worker
on_c2u_recv cid res = with_conn cid (c2u_recv_open res)

-- `case` of `on_c2u_send`, for the connection that it finds open.
unfoldable pub c2u_send_open : ℤ → Conn → Worker → Worker
c2u_send_open res cc w =
    if is_nonpos res
    then fail cc w
    else let cc' : Conn = record cc { c2u_off = cc.c2u_off + pos_part res } in
      let w1 = write cc' w in
      if ltb cc'.c2u_off cc'.c2u_end
      then send_c2u cc' w1
      else if cc'.client_read_done
      then w1
      else post (recv cc'.client_fd (length cc'.c2u_buf) (ud cc'.id (op_code Ops.c2u_recv))) w1

-- `case opC2USend`
unfoldable pub on_c2u_send : ℕ → ℤ → Worker → Worker
on_c2u_send cid res = with_conn cid (c2u_send_open res)

-- `case` of `on_u2c_recv`, for the connection that it finds open.
unfoldable pub u2c_recv_open : ℤ → Conn → Worker → Worker
u2c_recv_open res cc w =
    if is_neg res
    then fail cc w
    else if is_nonpos res
    then (let cc' : Conn = record cc { upstream_read_done = true } in
        let w1 = write cc' (syscall (shutdown_wr cc.client_fd) w) in
        if cc'.client_read_done then close_conn cc' w1 else w1)
    else let cc' : Conn = record cc { last_tick = w.tick; u2c_off = 0; u2c_end = pos_part res } in
      send_u2c cc' (write cc' (count_u2c (pos_part res) w))

-- `case opU2CRecv`
unfoldable pub on_u2c_recv : ℕ → ℤ → Worker → Worker
on_u2c_recv cid res = with_conn cid (u2c_recv_open res)

-- `case` of `on_u2c_send`, for the connection that it finds open.
unfoldable pub u2c_send_open : ℤ → Conn → Worker → Worker
u2c_send_open res cc w =
    if is_nonpos res
    then fail cc w
    else let cc' : Conn = record cc { u2c_off = cc.u2c_off + pos_part res } in
      let w1 = write cc' w in
      if ltb cc'.u2c_off cc'.u2c_end
      then send_u2c cc' w1
      else if cc'.upstream_read_done
      then w1
      else post (recv cc'.upstream_fd (length cc'.u2c_buf) (ud cc'.id (op_code Ops.u2c_recv))) w1

-- `case opU2CSend`
unfoldable pub on_u2c_send : ℕ → ℤ → Worker → Worker
on_u2c_send cid res = with_conn cid (u2c_send_open res)

-- `case opClose`. A connection is deleted where its count would fall to 0 or below.
unfoldable pub on_close : ℕ → Worker → Worker
on_close cid w = elim (find cid w.conns) [
  | none ↦ w
  | some cc ↦
      let cc' : Conn = record cc { closes_left = cc.closes_left - 1 } in
      let w1 = write cc' w in
      if leb cc'.closes_left 0
      then (let w2 : Worker =
            if not cc'.counted && cc'.relay_started then count_completed w1 else w1 in
          record w2 { conns = delete cid w2.conns })
      else w1
]

-- A property of what a case does: where it breaks off, and where it goes on with the connection.
pub with_conn-rule {ℓ} :
    (P : Worker → Type ℓ) (cid : ℕ) (rest : Conn → Worker → Worker) (w : Worker)
    → P w
    → ((c : Conn) → find cid w.conns ≡ some c → c.closing ≡ false → P (rest c w))
    → P (with_conn cid rest w)
with_conn-rule P cid rest w stop go = elim (Option-cases (find cid w.conns)) [
  | inl e ↦ rw (e, with_conn) stop
  | inr (c, e) ↦ rw (e, with_conn) (if-rule P c.closing (λ _. stop) (go c e))
]
