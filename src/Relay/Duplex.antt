-- ===== src/Relay/Duplex.antt =====
-- research/gate/cmd/relay-uring/main.go: the cases of the relay in both directions, by buffers and by
-- splices, which stop at a connection that is closing.
use flash_relay.Base.{ℕ, ◌+◌, true, ltb, if◌then◌else◌, length}
use flash_relay.Base.Int.{ℤ, pos_part, is_neg, is_nonpos}
use flash_relay.Base.Words.{add64}
use flash_relay.Worker.Actions.{slice}
use flash_relay.Relay.State.{Conn, RelayCfg, recv, send, shutdown_wr, Relay}
use flash_relay.Relay.Ops
use flash_relay.Relay.Actions.{tag, post, syscall, write, close_conn}
use flash_relay.Relay.Cases.{with_conn, fill, drain_to}

-- `if cc == nil || cc.closing { break }`, and the rest of the case.
abbrev pub with_open : ℕ → (Conn → Relay → Relay) → Relay → Relay
with_open cid rest = with_conn cid (λ cc w. if cc.closing then w else rest cc w)

abbrev send_c2u : Conn → Relay → Relay
send_c2u cc =
    post (send cc.upstream_fd (slice cc.c2u_off cc.c2u_end cc.c2u_buf) (tag cc.id Ops.c2u_send))

abbrev send_u2c : Conn → Relay → Relay
send_u2c cc =
    post (send cc.client_fd (slice cc.u2c_off cc.u2c_end cc.u2c_buf) (tag cc.id Ops.u2c_send))

-- `case` of `on_c2u_recv`, for the connection that it finds open.
unfoldable pub c2u_recv_open : RelayCfg → ℤ → Conn → Relay → Relay
c2u_recv_open cfg res cc w =
    if is_neg res
    then close_conn cfg cc w
    else if is_nonpos res
    then (let cc' : Conn = record cc { client_read_done = true } in
        let w1 = write cc' (syscall (shutdown_wr cc.upstream_fd) w) in
        if cc'.upstream_read_done then close_conn cfg cc' w1 else w1)
    else let cc' : Conn = record cc {
      bytes_c2u = add64 cc.bytes_c2u (pos_part res);
      c2u_off = 0;
      c2u_end = pos_part res;
    } in
      send_c2u cc' (write cc' w)

-- `case opC2URecv`
unfoldable pub on_c2u_recv : RelayCfg → ℕ → ℤ → Relay → Relay
on_c2u_recv cfg cid res = with_open cid (c2u_recv_open cfg res)

-- `case` of `on_c2u_send`, for the connection that it finds open.
unfoldable pub c2u_send_open : RelayCfg → ℤ → Conn → Relay → Relay
c2u_send_open cfg res cc w =
    if is_nonpos res
    then close_conn cfg cc w
    else let cc' : Conn = record cc { c2u_off = cc.c2u_off + pos_part res } in
      let w1 = write cc' w in
      if ltb cc'.c2u_off cc'.c2u_end
      then send_c2u cc' w1
      else if cc'.client_read_done
      then w1
      else post (recv cc'.client_fd (length cc'.c2u_buf) (tag cc'.id Ops.c2u_recv)) w1

-- `case opC2USend`
unfoldable pub on_c2u_send : RelayCfg → ℕ → ℤ → Relay → Relay
on_c2u_send cfg cid res = with_open cid (c2u_send_open cfg res)

-- `case` of `on_u2c_recv`, for the connection that it finds open.
unfoldable pub u2c_recv_open : RelayCfg → ℤ → Conn → Relay → Relay
u2c_recv_open cfg res cc w =
    if is_neg res
    then close_conn cfg cc w
    else if is_nonpos res
    then (let cc' : Conn = record cc { upstream_read_done = true } in
        let w1 = write cc' (syscall (shutdown_wr cc.client_fd) w) in
        if cc'.client_read_done then close_conn cfg cc' w1 else w1)
    else let cc' : Conn = record cc {
      bytes_u2c = add64 cc.bytes_u2c (pos_part res);
      u2c_off = 0;
      u2c_end = pos_part res;
    } in
      send_u2c cc' (write cc' w)

-- `case opU2CRecv`
unfoldable pub on_u2c_recv : RelayCfg → ℕ → ℤ → Relay → Relay
on_u2c_recv cfg cid res = with_open cid (u2c_recv_open cfg res)

-- `case` of `on_u2c_send`, for the connection that it finds open.
unfoldable pub u2c_send_open : RelayCfg → ℤ → Conn → Relay → Relay
u2c_send_open cfg res cc w =
    if is_nonpos res
    then close_conn cfg cc w
    else let cc' : Conn = record cc { u2c_off = cc.u2c_off + pos_part res } in
      let w1 = write cc' w in
      if ltb cc'.u2c_off cc'.u2c_end
      then send_u2c cc' w1
      else if cc'.upstream_read_done
      then w1
      else post (recv cc'.upstream_fd (length cc'.u2c_buf) (tag cc'.id Ops.u2c_recv)) w1

-- `case opU2CSend`
unfoldable pub on_u2c_send : RelayCfg → ℕ → ℤ → Relay → Relay
on_u2c_send cfg cid res = with_open cid (u2c_send_open cfg res)

-- `case opC2USpliceIn`, for the connection that it finds open: the fill arms itself again.
unfoldable pub c2u_splice_in_open : RelayCfg → ℤ → Conn → Relay → Relay
c2u_splice_in_open cfg res cc w =
    if is_nonpos res
    then close_conn cfg cc w
    else fill cfg cc.id Ops.c2u_splice_in cc.client_fd cc.c2u_pipe w

unfoldable pub on_c2u_splice_in : RelayCfg → ℕ → ℤ → Relay → Relay
on_c2u_splice_in cfg cid res = with_open cid (c2u_splice_in_open cfg res)

-- `case opC2USpliceOut`, for the connection that it finds open: the drain arms itself again.
unfoldable pub c2u_splice_out_open : RelayCfg → ℤ → Conn → Relay → Relay
c2u_splice_out_open cfg res cc w =
    if is_nonpos res
    then close_conn cfg cc w
    else let cc' : Conn = record cc { bytes_c2u = add64 cc.bytes_c2u (pos_part res) } in
      drain_to cfg cc'.id Ops.c2u_splice_out cc'.c2u_pipe cc'.upstream_fd (write cc' w)

unfoldable pub on_c2u_splice_out : RelayCfg → ℕ → ℤ → Relay → Relay
on_c2u_splice_out cfg cid res = with_open cid (c2u_splice_out_open cfg res)

-- `case opU2CSpliceIn`, for the connection that it finds open.
unfoldable pub u2c_splice_in_open : RelayCfg → ℤ → Conn → Relay → Relay
u2c_splice_in_open cfg res cc w =
    if is_nonpos res
    then close_conn cfg cc w
    else fill cfg cc.id Ops.u2c_splice_in cc.upstream_fd cc.u2c_pipe w

unfoldable pub on_u2c_splice_in : RelayCfg → ℕ → ℤ → Relay → Relay
on_u2c_splice_in cfg cid res = with_open cid (u2c_splice_in_open cfg res)

-- `case opU2CSpliceOut`, for the connection that it finds open.
unfoldable pub u2c_splice_out_open : RelayCfg → ℤ → Conn → Relay → Relay
u2c_splice_out_open cfg res cc w =
    if is_nonpos res
    then close_conn cfg cc w
    else let cc' : Conn = record cc { bytes_u2c = add64 cc.bytes_u2c (pos_part res) } in
      drain_to cfg cc'.id Ops.u2c_splice_out cc'.u2c_pipe cc'.client_fd (write cc' w)

unfoldable pub on_u2c_splice_out : RelayCfg → ℕ → ℤ → Relay → Relay
on_u2c_splice_out cfg cid res = with_open cid (u2c_splice_out_open cfg res)
