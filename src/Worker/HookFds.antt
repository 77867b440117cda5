-- ===== src/Worker/HookFds.antt =====
-- The upstream fd of a hook's decision in flashrelay/worker.go (`case opEventfd`).
use flash_relay.Base.{
  ℕ, ◌≡◌, ◌⊎◌, inl, inr, refl, ◌∙◌, ap, true, false, List, ◌∷◌, some, ltb, leb, ◌==◌, length, arith,
  if-rule, Option-cases,
}
use mathlib.Core.Path.{subst}
use flash_relay.Base.Int.{ℤ, is_pos}
use flash_relay.Worker.State.{Limits, Conn, Decision, HookResult, Worker, close_fd}
use flash_relay.Worker.Ops
use flash_relay.Worker.Ops.{Op, ud}
use flash_relay.Worker.Conns.{find, find-put_self, find-id}
use flash_relay.Worker.Actions.{
  post, syscall, write, post_close, close_conn, fail, grow_req, post_recv_req, forward_init,
  start_duplex, count_rejected, count_errors, count_dead, fds_to_close,
}
use flash_relay.Worker.Handlers.Hook.{
  stray_fd, start_reply, reject, more, relay, on_hook_result, clamp_consumed,
}

-- `closeConn` and `fail` make no system call of their own: they post their closes.
calls-post_close : (id : ℕ) (fd : ℤ) (w : Worker) → (post_close id fd w).calls ≡ w.calls
unfolding post_close post
calls-post_close id fd w = ground arith

calls-close_conn : (c : Conn) (w : Worker) → (close_conn c w).calls ≡ w.calls
unfolding close_conn write
calls-close_conn c w =
    if-rule (λ (v : Worker). v.calls ≡ w.calls) c.closing (λ _. refl)
      (λ _.
        if-rule (λ (v : Worker). v.calls ≡ w.calls) (fds_to_close c == 0) (λ _. both) (λ _. both))
  where
    marked : Conn
    marked = record c { closing = true; closes_left = fds_to_close c }

    w1 : Worker
    w1 = write marked (count_dead w)

    both : (post_close c.id c.upstream_fd (post_close c.id c.client_fd w1)).calls ≡ w.calls
    both =
        calls-post_close c.id c.upstream_fd (post_close c.id c.client_fd w1)
        ∙ calls-post_close c.id c.client_fd w1

calls-fail : (c : Conn) (w : Worker) → (fail c w).calls ≡ w.calls
unfolding fail write
calls-fail c w =
    let c' : Conn = record c { counted = true } in
    if-rule (λ (v : Worker). v.calls ≡ w.calls) c.counted (λ _. calls-close_conn c w)
      (λ _. calls-close_conn c' (write c' (count_errors w)))

-- The fd is closed at once, or is the upstream of the connection, which is open: its close is to come.
pub Settled : ℤ → ℕ → Worker → Worker → Type 0
Settled fd cid w v =
    (v.calls ≡ close_fd fd ∷ w.calls)
    ⊎ ((c : Conn) × (find cid v.conns ≡ some c)
        × (c.closing ≡ false)
        × (c.upstream_fd ≡ fd)
        × (v.calls ≡ w.calls))

-- The connection is in the map and open with its upstream, and no call was made.
Adopted : ℤ → ℕ → Worker → Worker → Type 0
Adopted fd cid w v =
    (c : Conn) × (find cid v.conns ≡ some c)
    × (c.closing ≡ false)
    × (c.upstream_fd ≡ fd)
    × (v.calls ≡ w.calls)

stray : (fd : ℤ) (w : Worker) → is_pos fd ≡ true → (stray_fd fd w).calls ≡ close_fd fd ∷ w.calls
unfolding stray_fd syscall
stray fd w h = ground (arith, h)

module _ (c old : Conn) (w : Worker) (found : find c.id w.conns ≡ some old)
    (going : c.closing ≡ false) where
  start_reply-Adopted :
      (op : Op) (reply : List ℕ) → Adopted c.upstream_fd c.id w (start_reply op reply c w)
  unfolding start_reply post write Adopted
  start_reply-Adopted op reply = (_, find-put_self _ old w.conns found, going, refl, refl)

  forward_init-Adopted : (lim : Limits) → Adopted c.upstream_fd c.id w (forward_init lim c w)
  unfolding forward_init start_duplex post write Adopted
  forward_init-Adopted lim =
      if-rule (Adopted c.upstream_fd c.id w) (leb c.req_n c.init_sent)
        (λ _. (_, find-put_self _ old w.conns found, going, refl, refl))
        (λ _. (_, find-put_self _ old w.conns found, going, refl, refl))

module _ (c old : Conn) (w : Worker) (found : find c.id w.conns ≡ some old)
    (going : c.closing ≡ false) where
  relay-Adopted :
      (lim : Limits) (dec : Decision) → Adopted dec.upstream_fd c.id w (relay lim dec c w)
  unfolding relay
  relay-Adopted lim dec =
      let c' : Conn = record c {
        upstream_fd = dec.upstream_fd;
        init_sent = clamp_consumed dec.consumed c.req_n;
      } in
      if-rule (Adopted dec.upstream_fd c.id w) (ltb 0 (length dec.reply))
        (λ _. start_reply-Adopted c' old w found going Ops.reply_client dec.reply)
        (λ _. forward_init-Adopted c' old w found going lim)

calls-start_reply :
    (op : Op) (reply : List ℕ) (c : Conn) (w : Worker) → (start_reply op reply c w).calls ≡ w.calls
unfolding start_reply post write
calls-start_reply op reply c w = refl

module _ (c : Conn) (w : Worker) (dec : Decision) (held : is_pos dec.upstream_fd ≡ true) where
  calls-reject : (reject dec c w).calls ≡ close_fd dec.upstream_fd ∷ w.calls
  unfolding reject write
  calls-reject =
      let c' : Conn = record c { counted = true } in
      let w1 = write c' (count_rejected (stray_fd dec.upstream_fd w)) in
      if-rule (λ (v : Worker). v.calls ≡ close_fd dec.upstream_fd ∷ w.calls)
        (ltb 0 (length dec.reply))
        (λ _. calls-start_reply Ops.reject_send dec.reply c' w1 ∙ stray dec.upstream_fd w held)
        (λ _. calls-close_conn c' w1 ∙ stray dec.upstream_fd w held)

  calls-more : (lim : Limits) → (more lim dec c w).calls ≡ close_fd dec.upstream_fd ∷ w.calls
  unfolding more post_recv_req post write
  calls-more lim =
      let w1 = stray_fd dec.upstream_fd w in
      let closed : w1.calls ≡ close_fd dec.upstream_fd ∷ w.calls = stray dec.upstream_fd w held in
      elim (Option-cases (grow_req lim c)) [
        | inl e ↦ rw (e, more) (calls-fail c w1 ∙ closed)
        | inr (c', e) ↦
            rw (e, more)
              (if-rule (λ (v : Worker). v.calls ≡ close_fd dec.upstream_fd ∷ w.calls)
                (ltb 0 (length dec.reply))
                (λ _. calls-start_reply Ops.reply_more dec.reply c' w1 ∙ closed) (λ _. closed))
      ]

-- Whatever a hook decides and whatever has become of its connection, the upstream fd that it hands
-- over is closed at once, or it is the upstream of the connection, which is still in the map and not
-- closing.
pub on_hook_result-Settled :
    (lim : Limits) (r : HookResult) (w : Worker)
    → is_pos r.dec.upstream_fd ≡ true
    → Settled r.dec.upstream_fd r.id w (on_hook_result lim r w)
unfolding Settled Adopted on_hook_result write
on_hook_result-Settled lim r w held =
    let P : Worker → Type 0 = Settled r.dec.upstream_fd r.id w in
    elim (Option-cases (find r.id w.conns)) [
      | inl e ↦ rw (e, on_hook_result) (inl (stray r.dec.upstream_fd w held))
      | inr (c, e) ↦
          let same : c.id ≡ r.id = find-id r.id c w.conns e in
          let c' : Conn = record c { last_tick = w.tick } in
          let w1 = write c' w in
          let here : find c'.id w1.conns ≡ some c' =
            find-put_self c' c w.conns (ap (λ i. find i w.conns) same ∙ e) in
          rw (e, on_hook_result)
            (if-rule P c.closing (λ _. inl (stray r.dec.upstream_fd w held))
              (λ going.
                if-rule P r.dec.reject (λ _. inl (calls-reject c' w1 r.dec held))
                  (λ _.
                    if-rule P r.dec.more (λ _. inl (calls-more c' w1 r.dec held lim))
                      (λ _. inr (
                        subst (λ i. Adopted r.dec.upstream_fd i w1 (relay lim r.dec c' w1)) same
                          (relay-Adopted c' c' w1 here going lim r.dec))))))
    ]
