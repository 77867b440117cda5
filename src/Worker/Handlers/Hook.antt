-- ===== src/Worker/Handlers/Hook.antt =====
-- flashrelay/worker.go: `case opEventfd`, which acts on the decisions that hooks have made.
use flash_relay.Base.{ℕ, true, List, [], ◌∷◌, none, some, ltb, if◌then◌else◌, length}
use flash_relay.Base.Int.{ℤ, pos, negsuc, is_pos}
use flash_relay.Bridge.{clear, drain}
use flash_relay.Worker.State.{Limits, Conn, Decision, HookResult, Worker, send, close_fd}
use flash_relay.Worker.Ops
use flash_relay.Worker.Ops.{Op, ud, op_code}
use flash_relay.Worker.Conns.{find}
use flash_relay.Worker.Actions.{
  post, syscall, write, count_rejected, close_conn, fail, post_recv_req, grow_req, forward_init,
  post_eventfd,
}

-- `if r.dec.UpstreamFD > 0 { syscall.Close(r.dec.UpstreamFD) }`
unfoldable pub stray_fd : ℤ → Worker → Worker
stray_fd fd w = if is_pos fd then syscall (close_fd fd) w else w

-- `cc.replyBuf, cc.replyOff, cc.replyEnd = r.dec.Reply, 0, len(r.dec.Reply)` and the send of it
unfoldable pub start_reply : Op → List ℕ → Conn → Worker → Worker
start_reply op reply cc w =
    let cc' : Conn = record cc { reply_buf = reply; reply_off = 0; reply_end = length reply } in
    post (send cc'.client_fd cc'.reply_buf (ud cc'.id (op_code op))) (write cc' w)

-- Forward from `Consumed`, clamped to the request: negative is 0, above `reqN` is `reqN`.
unfoldable pub clamp_consumed : ℤ → ℕ → ℕ
clamp_consumed (negsuc k) n = 0
clamp_consumed (pos k) n = if ltb n k then n else k

-- `if r.dec.Reject`
unfoldable pub reject : Decision → Conn → Worker → Worker
reject dec cc w =
    let cc' : Conn = record cc { counted = true } in
    let w1 = write cc' (count_rejected (stray_fd dec.upstream_fd w)) in
    if ltb 0 (length dec.reply)
    then start_reply Ops.reject_send dec.reply cc' w1
    else close_conn cc' w1

-- `if r.dec.More`
unfoldable pub more : Limits → Decision → Conn → Worker → Worker
more lim dec cc w =
    let w1 = stray_fd dec.upstream_fd w in
    elim (grow_req lim cc) [
      | none ↦ fail cc w1
      | some cc' ↦
          if ltb 0 (length dec.reply)
          then start_reply Ops.reply_more dec.reply cc' w1
          else post_recv_req cc' (write cc' w1)
    ]

-- Neither: adopt the upstream fd.
unfoldable pub relay : Limits → Decision → Conn → Worker → Worker
relay lim dec cc w =
    let cc' : Conn = record cc {
      upstream_fd = dec.upstream_fd;
      init_sent = clamp_consumed dec.consumed cc.req_n;
    } in
    if ltb 0 (length dec.reply)
    then start_reply Ops.reply_client dec.reply cc' w
    else forward_init lim cc' w

-- One round of `for _, r := range br.drain()`
unfoldable pub on_hook_result : Limits → HookResult → Worker → Worker
on_hook_result lim r w = elim (find r.id w.conns) [
  | none ↦ stray_fd r.dec.upstream_fd w
  | some cc ↦
      if cc.closing
      then stray_fd r.dec.upstream_fd w
      else let cc' : Conn = record cc { last_tick = w.tick } in
        let w1 = write cc' w in
        if r.dec.reject
        then reject r.dec cc' w1
        else if r.dec.more
        then more lim r.dec cc' w1
        else relay lim r.dec cc' w1
]

unfoldable pub on_hook_results : Limits → List HookResult → Worker → Worker
on_hook_results lim [] w = w
on_hook_results lim (r ∷ rs) w = on_hook_results lim rs (on_hook_result lim r w)

-- `case opEventfd`: the flag is cleared before the drain.
unfoldable pub on_eventfd : Limits → Worker → Worker
on_eventfd lim w =
    let w1 = post_eventfd w in
    let (rs, b) = drain (clear w1.br) in on_hook_results lim rs (record w1 { br = b })
