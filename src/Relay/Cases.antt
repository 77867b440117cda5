-- ===== src/Relay/Cases.antt =====
-- research/gate/cmd/relay-uring/main.go: the cases of the completion `switch` up to the relay, and
-- those of the relay of one reply. Each takes the connection id and the result of the completion.
use flash_relay.Base.{
  ℕ, ◌-◌, Bool, true, false, not, ◌&&◌, List, [], ◌∷◌, ◌++◌, Option, none, some, ltb, leb,
  if◌then◌else◌, take, replicate, length, set, get_or,
}
use flash_relay.Base.Int.{ℤ, pos_part, is_neg, is_nonpos, is_pos}
use flash_relay.Base.Words.{add64}
use flash_relay.Base.Table.{lookup, delete}
use flash_relay.Bridge.{clear, drain}
use flash_relay.Relay.State.{
  Pipe, Conn, HookResult, RelayCfg, recv, send, splice, close, close_fd, make_pipe, Relay,
}
use flash_relay.Relay.Ops
use flash_relay.Relay.Ops.{Op}
use flash_relay.Relay.Actions.{
  tag, get_conn, put_conn, post, syscall, write, close_conn, post_eventfd,
}

-- `cc := conns[cid]; if cc == nil { break }`, and the rest of the case.
abbrev pub with_conn : ℕ → (Conn → Relay → Relay) → Relay → Relay
with_conn cid rest w = elim (lookup cid w.conns) [ none ↦ w | some cc ↦ rest cc w ]

-- `errs++`
abbrev pub count_err : Relay → Relay
count_err w = record w { errs = add64 w.errs 1 }

-- The connection of an accepted fd is in the map, and its request is being read.
unfoldable pub admit : RelayCfg → ℤ → Relay → Relay
admit cfg fd w =
    let id = add64 w.next_id 1 in
    let (fresh, w1) = get_conn cfg (record w { next_id = id }) in
    let cc : Conn = record fresh { id = id; client_fd = fd } in
    post (recv fd (length cc.req_buf) (tag id Ops.recv_req)) (write cc w1)

-- `case opAccept`, for the listener of an index. It runs only for an accept in flight, so the counts
-- are positive.
unfoldable pub on_accept : RelayCfg → ℕ → ℤ → Relay → Relay
on_accept cfg k res w =
    let w1 : Relay = record w {
      accept_inflight =
          if ltb k (length w.accept_inflight)
          then set w.accept_inflight k (get_or w.accept_inflight k 0 - 1)
          else w.accept_inflight;
      total_accepts = w.total_accepts - 1;
    } in
    if is_neg res
    then count_err w1
    else let w2 : Relay = record w1 {
      accepted = add64 w1.accepted 1;
      g_accepted = add64 w1.g_accepted 1;
    } in
      if leb cfg.max_conns (length w2.conns)
      then post (close res (tag 0 Ops.close)) (record w2 { shed = add64 w2.shed 1 })
      else admit cfg res w2

-- One round of `for _, r := range br.drain()`
unfoldable pub on_hook_result : RelayCfg → HookResult → Relay → Relay
on_hook_result cfg r w = elim (lookup r.id w.conns) [
  | none ↦ if r.ok && is_pos r.upstream_fd then syscall (close_fd r.upstream_fd) w else w
  | some cc ↦
      if not r.ok
      then close_conn cfg cc (count_err w)
      else let cc' : Conn = record cc { upstream_fd = r.upstream_fd } in
        post (send cc'.upstream_fd (take cc'.req_n cc'.req_buf) (tag cc'.id Ops.send_up))
          (write cc' w)
]

unfoldable pub on_hook_results : RelayCfg → List HookResult → Relay → Relay
on_hook_results cfg [] w = w
on_hook_results cfg (r ∷ rs) w = on_hook_results cfg rs (on_hook_result cfg r w)

-- `case opEventfd`: the flag is cleared before the drain.
unfoldable pub on_eventfd : RelayCfg → Relay → Relay
on_eventfd cfg w =
    let w1 = post_eventfd w in
    let (rs, b) = drain (clear w1.br) in on_hook_results cfg rs (record w1 { br = b })

-- `case` of `on_recv_req`, for the connection that it finds.
unfoldable pub recv_req_found : RelayCfg → ℤ → Conn → Relay → Relay
recv_req_found cfg res cc w =
    if is_nonpos res
    then close_conn cfg cc (count_err w)
    else let w1 = write (record cc { req_n = pos_part res }) w in
      record w1 { jobs = w1.jobs ++ cc.id ∷ [] }

-- `case opRecvReq`
unfoldable pub on_recv_req : RelayCfg → ℕ → ℤ → Relay → Relay
on_recv_req cfg cid res = with_conn cid (recv_req_found cfg res)

-- The splices of one direction: a fill from a socket to the pipe, and a drain from it to the other.
abbrev pub fill : RelayCfg → ℕ → Op → ℤ → Pipe → Relay → Relay
fill cfg id op from p = post (splice from p.write_end cfg.buf_size (tag id op))

abbrev pub drain_to : RelayCfg → ℕ → Op → Pipe → ℤ → Relay → Relay
drain_to cfg id op p to = post (splice p.read_end to cfg.buf_size (tag id op))

-- `syscall.Pipe`: the kernel's answer is an input, and a failure leaves the array as it was.
abbrev pub pipe_or : Option Pipe → Pipe → Pipe
pipe_or none p = p
pipe_or (some q) p = q

abbrev pub failed : Option Pipe → Bool
failed none = true
failed (some q) = false

-- Two pipes are made, the second where the first was, and the four splices are armed.
unfoldable pub start_splice : RelayCfg → Option Pipe → Option Pipe → Conn → Relay → Relay
start_splice cfg p q cc w =
    let c1 : Conn = record cc { c2u_pipe = pipe_or p cc.c2u_pipe } in
    let w1 = write c1 (syscall (make_pipe p) w) in
    if failed p
    then close_conn cfg c1 (count_err w1)
    else let c2 : Conn = record c1 { u2c_pipe = pipe_or q c1.u2c_pipe } in
      let w2 = write c2 (syscall (make_pipe q) w1) in
      if failed q
      then close_conn cfg c2 (count_err w2)
      else drain_to cfg c2.id Ops.u2c_splice_out c2.u2c_pipe c2.client_fd (
          fill cfg c2.id Ops.u2c_splice_in c2.upstream_fd c2.u2c_pipe (
            drain_to cfg c2.id Ops.c2u_splice_out c2.c2u_pipe c2.upstream_fd
              (fill cfg c2.id Ops.c2u_splice_in c2.client_fd c2.c2u_pipe w2)))

-- `if c.duplex`: both directions are read.
unfoldable pub start_duplex : RelayCfg → Conn → Relay → Relay
start_duplex cfg cc w =
    let room = replicate cfg.buf_size 0 in
    let cc' : Conn = record cc { c2u_buf = room; u2c_buf = room } in
    post (recv cc'.upstream_fd (length cc'.u2c_buf) (tag cc'.id Ops.u2c_recv))
      (post (recv cc'.client_fd (length cc'.c2u_buf) (tag cc'.id Ops.c2u_recv)) (write cc' w))

-- `case` of `on_send_up`, for the connection that it finds. What a short send leaves is not sent.
unfoldable pub send_up_found : RelayCfg → Option Pipe → Option Pipe → ℤ → Conn → Relay → Relay
send_up_found cfg p q res cc w =
    if is_neg res
    then close_conn cfg cc (count_err w)
    else if cfg.duplex && cfg.splice
    then start_splice cfg p q cc w
    else if cfg.duplex
    then start_duplex cfg cc w
    else post (recv cc.upstream_fd (length cc.resp_buf) (tag cc.id Ops.recv_resp)) w

-- `case opSendUp`
unfoldable pub on_send_up : RelayCfg → Option Pipe → Option Pipe → ℕ → ℤ → Relay → Relay
on_send_up cfg p q cid res = with_conn cid (send_up_found cfg p q res)

-- `case` of `on_recv_resp`, for the connection that it finds.
unfoldable pub recv_resp_found : RelayCfg → ℤ → Conn → Relay → Relay
recv_resp_found cfg res cc w =
    if is_nonpos res
    then close_conn cfg cc (count_err w)
    else post (send cc.client_fd (take (pos_part res) cc.resp_buf) (tag cc.id Ops.send_client)) w

-- `case opRecvResp`
unfoldable pub on_recv_resp : RelayCfg → ℕ → ℤ → Relay → Relay
on_recv_resp cfg cid res = with_conn cid (recv_resp_found cfg res)

-- `case` of `on_send_client`, for the connection that it finds.
unfoldable pub send_client_found : RelayCfg → ℤ → Conn → Relay → Relay
send_client_found cfg res cc w =
    let w1 : Relay =
      if is_neg res
      then count_err w
      else record w { completed = add64 w.completed 1; g_completed = add64 w.g_completed 1 } in
    close_conn cfg cc w1

-- `case opSendClient`
unfoldable pub on_send_client : RelayCfg → ℕ → ℤ → Relay → Relay
on_send_client cfg cid res = with_conn cid (send_client_found cfg res)

-- `case` of `on_close`, for the connection that it finds. It is deleted where its count would fall to
-- 0 or below.
unfoldable pub close_found : RelayCfg → ℕ → Conn → Relay → Relay
close_found cfg cid cc w =
    let cc' : Conn = record cc { closes_left = cc.closes_left - 1 } in
    let w1 = write cc' w in
    if leb cc'.closes_left 0
    then put_conn cfg cc' (record w1 { conns = delete cid w1.conns })
    else w1

-- `case opClose`
unfoldable pub on_close : RelayCfg → ℕ → Relay → Relay
on_close cfg cid = with_conn cid (close_found cfg cid)
