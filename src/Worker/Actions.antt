-- ===== src/Worker/Actions.antt =====
-- flashrelay/worker.go: the closures of `runWorker` that the completion handlers share.
-- A closure that changes a connection through its pointer takes the connection and writes it back
-- to the map.
use flash_relay.Base.{
  ℕ, suc, ◌+◌, ◌-◌, ◌*◌, true, List, [], ◌∷◌, ◌++◌, Option, none, some, ltb, leb, ◌==◌,
  if◌then◌else◌, take, drop, replicate, length,
}
use flash_relay.Base.Int.{ℤ, is_pos}
use flash_relay.Base.Words.{u64_mod, add64}
use flash_relay.Worker.State.{
  Limits, Conn, Worker, Request, accept, read, timer, recv, send, close, Syscall,
}
use flash_relay.Worker.Ops
use flash_relay.Worker.Ops.{ud, op_code}
use flash_relay.Worker.Conns.{put, delete}

-- `b[from:to]`
abbrev pub slice : ℕ → ℕ → List ℕ → List ℕ
slice from to b = take (to - from) (drop from b)

-- `post`: the request is in the submission queue when it returns. (Its retry loop, over the ring
-- itself, is `Uring.Post`.)
unfoldable pub post : Request → Worker → Worker
post r w = record w { posted = r ∷ w.posted }

unfoldable pub syscall : Syscall → Worker → Worker
syscall s w = record w { calls = s ∷ w.calls }

-- A write through the connection's pointer.
unfoldable pub write : Conn → Worker → Worker
write cc w = record w { conns = put cc w.conns }

-- `s.cnt.<counter>.Add(1)`, for each counter
abbrev pub count_accepted : Worker → Worker
count_accepted w = record w { cnt = record w.cnt { accepted = add64 w.cnt.accepted 1 } }

abbrev pub count_completed : Worker → Worker
count_completed w = record w { cnt = record w.cnt { completed = add64 w.cnt.completed 1 } }

abbrev pub count_rejected : Worker → Worker
count_rejected w = record w { cnt = record w.cnt { rejected = add64 w.cnt.rejected 1 } }

abbrev pub count_shed : Worker → Worker
count_shed w = record w { cnt = record w.cnt { shed = add64 w.cnt.shed 1 } }

abbrev pub count_idle_closed : Worker → Worker
count_idle_closed w = record w { cnt = record w.cnt { idle_closed = add64 w.cnt.idle_closed 1 } }

abbrev pub count_errors : Worker → Worker
count_errors w = record w { cnt = record w.cnt { errors = add64 w.cnt.errors 1 } }

abbrev pub count_live : Worker → Worker
count_live w = record w { cnt = record w.cnt { live = add64 w.cnt.live 1 } }

-- `s.cnt.live.Add(^uint64(0))`
abbrev pub count_dead : Worker → Worker
count_dead w = record w { cnt = record w.cnt { live = add64 w.cnt.live (u64_mod - 1) } }

abbrev pub count_c2u : ℕ → Worker → Worker
count_c2u n w = record w { cnt = record w.cnt { bytes_c2u = add64 w.cnt.bytes_c2u n } }

abbrev pub count_u2c : ℕ → Worker → Worker
count_u2c n w = record w { cnt = record w.cnt { bytes_u2c = add64 w.cnt.bytes_u2c n } }

-- How many of a connection's fds `closeConn` closes.
abbrev pub fds_to_close : Conn → ℕ
fds_to_close cc = (if is_pos cc.client_fd then 1 else 0) + (if is_pos cc.upstream_fd then 1 else 0)

-- `if fd > 0 { post(PrepClose(fd)) }`
unfoldable pub post_close : ℕ → ℤ → Worker → Worker
post_close id fd w = if is_pos fd then post (close fd (ud id (op_code Ops.close))) w else w

-- `closeConn`
unfoldable pub close_conn : Conn → Worker → Worker
close_conn cc w =
    if cc.closing
    then w
    else let n = fds_to_close cc in
      let w1 = write (record cc { closing = true; closes_left = n }) (count_dead w) in
      let w2 = post_close cc.id cc.upstream_fd (post_close cc.id cc.client_fd w1) in
      if n == 0 then record w2 { conns = delete cc.id w2.conns } else w2

-- `startDuplex`
unfoldable pub start_duplex : Limits → Conn → Worker → Worker
start_duplex lim cc w =
    let cc' : Conn = record cc {
      relay_started = true;
      req_buf = [];
      reply_buf = [];
      c2u_buf = replicate lim.buf_size 0;
      u2c_buf = replicate lim.buf_size 0;
    } in
    post (recv cc'.upstream_fd (length cc'.u2c_buf) (ud cc'.id (op_code Ops.u2c_recv))) (
      post (recv cc'.client_fd (length cc'.c2u_buf) (ud cc'.id (op_code Ops.c2u_recv)))
        (write cc' w))

-- `fail`
unfoldable pub fail : Conn → Worker → Worker
fail cc w =
    if cc.counted
    then close_conn cc w
    else let cc' : Conn = record cc { counted = true } in
      close_conn cc' (write cc' (count_errors w))

-- `postRecvReq`
unfoldable pub post_recv_req : Conn → Worker → Worker
post_recv_req cc =
    post (recv cc.client_fd (length cc.req_buf - cc.req_n) (ud cc.id (op_code Ops.recv_req)))

-- `growReq`: the connection with room for another read, or `none` where it returns false.
unfoldable pub grow_req : Limits → Conn → Option Conn
grow_req lim cc =
    let len = length cc.req_buf in
    if ltb cc.req_n len
    then some cc
    else if leb lim.max_req_len len
    then none
    else let n = if ltb lim.max_req_len (len * 2) then lim.max_req_len else len * 2 in
      some (record cc { req_buf = take cc.req_n cc.req_buf ++ replicate (n - cc.req_n) 0 })

-- `forwardInit`
unfoldable pub forward_init : Limits → Conn → Worker → Worker
forward_init lim cc w =
    if leb cc.req_n cc.init_sent
    then start_duplex lim cc w
    else post
        (send cc.upstream_fd (slice cc.init_sent cc.req_n cc.req_buf)
          (ud cc.id (op_code Ops.send_up)))
        (write cc w)

-- `postAccept`
unfoldable pub post_accept : Worker → Worker
post_accept w =
    let w' = post (accept (ud 0 (op_code Ops.accept))) w in
    record w' { accept_inflight = suc w'.accept_inflight }

-- `postEventfd`
unfoldable pub post_eventfd : Worker → Worker
post_eventfd = post (read (ud 0 (op_code Ops.eventfd)))

-- `postTimeout`
unfoldable pub post_timeout : Worker → Worker
post_timeout = post (timer (ud 0 (op_code Ops.timeout)))
