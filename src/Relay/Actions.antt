-- ===== src/Relay/Actions.antt =====
-- research/gate/cmd/relay-uring/main.go: the closures of `worker`. A closure that changes a connection
-- through its pointer takes the connection and writes it back to the map.
use flash_relay.Base.{
  ℕ, suc, ◌+◌, ◌/◌, true, false, List, [], ◌∷◌, ltb, ◌==◌, if◌then◌else◌, replicate, length, set,
  get_or,
}
use flash_relay.Base.Int.{ℤ, pos, is_pos}
use flash_relay.Base.Table.{insert, delete}
use flash_relay.Relay.State.{
  Pipe, Conn, RelayCfg, Tag, Request, accept, read, timer, close, Syscall, close_pipe, Relay,
}
use flash_relay.Relay.Ops
use flash_relay.Relay.Ops.{Op}

abbrev pub tag : ℕ → Op → Tag
tag id op = record { id = id; op = op }

abbrev pub no_pipe : Pipe
no_pipe = record { read_end = pos 0; write_end = pos 0 }

-- `conn{reqBuf: …, respBuf: …}`: all else is zero.
abbrev pub blank : List ℕ → List ℕ → Conn
blank req_buf resp_buf = record {
  id = 0;
  client_fd = pos 0;
  upstream_fd = pos 0;
  req_buf = req_buf;
  resp_buf = resp_buf;
  req_n = 0;
  closing = false;
  closes_left = 0;
  c2u_buf = [];
  u2c_buf = [];
  c2u_off = 0;
  c2u_end = 0;
  u2c_off = 0;
  u2c_end = 0;
  client_read_done = false;
  upstream_read_done = false;
  bytes_c2u = 0;
  bytes_u2c = 0;
  c2u_pipe = no_pipe;
  u2c_pipe = no_pipe;
}

abbrev pub made_conn : RelayCfg → Conn
made_conn cfg = blank (replicate cfg.req_len 0) (replicate cfg.reply_len 0)

-- `getConn`: the struct, and the worker with the freelist that is left.
unfoldable pub get_conn : RelayCfg → Relay → Conn × Relay
get_conn cfg w = if cfg.duplex then (made_conn cfg, w) else elim w.conn_free [
  | [] ↦ (made_conn cfg, w)
  | cc ∷ rest ↦ (cc, record w { conn_free = rest })
]

-- `putConn`
unfoldable pub put_conn : RelayCfg → Conn → Relay → Relay
put_conn cfg cc w =
    if cfg.duplex then w else record w { conn_free = blank cc.req_buf cc.resp_buf ∷ w.conn_free }

-- `post`: the request is in the submission queue when it returns.
unfoldable pub post : Request → Relay → Relay
post r w = record w { posted = r ∷ w.posted }

unfoldable pub syscall : Syscall → Relay → Relay
syscall s w = record w { calls = s ∷ w.calls }

-- A write through the connection's pointer.
unfoldable pub write : Conn → Relay → Relay
write cc w = record w { conns = insert cc.id cc w.conns }

-- `if p[0] > 0 { syscall.Close(p[0]) }` and the same for `p[1]`
unfoldable pub close_end : ℤ → Relay → Relay
close_end fd w = if is_pos fd then syscall (close_pipe fd) w else w

unfoldable pub close_ends : Pipe → Relay → Relay
close_ends p w = close_end p.write_end (close_end p.read_end w)

abbrev pub fds_to_close : Conn → ℕ
fds_to_close cc = (if is_pos cc.client_fd then 1 else 0) + (if is_pos cc.upstream_fd then 1 else 0)

-- `if fd > 0 { post(PrepClose(fd)) }`
unfoldable pub post_close : ℕ → ℤ → Relay → Relay
post_close id fd w = if is_pos fd then post (close fd (tag id Ops.close)) w else w

-- `closeConn`
unfoldable pub close_conn : RelayCfg → Conn → Relay → Relay
close_conn cfg cc w =
    if cc.closing
    then w
    else let n = fds_to_close cc in
      let cc' : Conn = record cc { closing = true; closes_left = n } in
      let w1 = if cfg.splice then close_ends cc.u2c_pipe (close_ends cc.c2u_pipe w) else w in
      let w2 = post_close cc.id cc.upstream_fd (post_close cc.id cc.client_fd (write cc' w1)) in
      if n == 0 then put_conn cfg cc' (record w2 { conns = delete cc.id w2.conns }) else w2

-- `postAccept`
unfoldable pub post_accept : RelayCfg → ℕ → Relay → Relay
post_accept cfg k w =
    let w' = post (accept (get_or cfg.lns k (pos 0)) (tag k Ops.accept)) w in
    record w' {
      accept_inflight = set w'.accept_inflight k (suc (get_or w'.accept_inflight k 0));
      total_accepts = suc w'.total_accepts;
    }

-- `perLn`: a worker has a listener at least, so the division is by no zero.
unfoldable pub per_ln : RelayCfg → ℕ
per_ln cfg = let n = cfg.accept_batch / length cfg.lns in if ltb n 1 then 1 else n

-- `postEventfd`
unfoldable pub post_eventfd : Relay → Relay
post_eventfd = post (read (tag 0 Ops.eventfd))

-- `postTimeout`
unfoldable pub post_timeout : Relay → Relay
post_timeout = post (timer (tag 0 Ops.timeout))
