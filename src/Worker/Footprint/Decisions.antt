-- ===== src/Worker/Footprint/Decisions.antt =====
-- Any such preorder contains what flashrelay/worker.go does for one hook result, and for one
-- connection of the idle sweep.
use flash_relay.Base.{
  ℕ, true, ◌≡◌, refl, ltb, inl, inr, some, if-rule, length, List, Option-cases, ◌∙◌, arith,
}
use flash_relay.Base.Int.{ℤ, is_pos}
use flash_relay.Worker.State.{Conn, Limits, Decision, HookResult, Worker}
use flash_relay.Worker.Ops
use flash_relay.Worker.Ops.{Op}
use flash_relay.Worker.Conns.{find, find-id}
use flash_relay.Worker.Actions.{write, grow_req, count_rejected}
use flash_relay.Worker.Handlers.Hook.{stray_fd, start_reply, reject, more, relay, on_hook_result}
use flash_relay.Worker.Loop.{is_idle, sweep_one}
use flash_relay.Worker.Footprint.{Contains, IsTransfer, reply_client, reply_more, reject_send}
use flash_relay.Worker.Footprint.Closures.{
  on_close_conn, on_fail, on_post_recv_req, on_forward_init,
}

-- `growReq` only changes the buffer.
pub grow_req-id : (lim : Limits) (c c' : Conn) → grow_req lim c ≡ some c' → c'.id ≡ c.id
unfolding grow_req
grow_req-id lim c c' h = ground arith

module _ (cid : ℕ) (R : Worker → Worker → Type 0) (l : Contains cid R) where
  of_stray_fd : (fd : ℤ) (w : Worker) → R w (stray_fd fd w)
  unfolding stray_fd
  of_stray_fd fd w = if-rule (R w) (is_pos fd) (λ _. l.calls _ w) (λ _. l.same w)

  of_start_reply :
      (op : Op) (reply : List ℕ) (c : Conn) (w : Worker)
      → IsTransfer op
      → c.id ≡ cid
      → R w (start_reply op reply c w)
  unfolding start_reply
  of_start_reply op reply c w o e = l.then _ _ _ (l.writes _ w e) (l.sends c.id op _ _ _ e o)

  of_reject : (dec : Decision) (c : Conn) (w : Worker) → c.id ≡ cid → R w (reject dec c w)
  unfolding reject
  of_reject dec c w e =
      if-rule (R w) (ltb 0 (length dec.reply))
        (λ _. l.then _ _ _ charged (of_start_reply Ops.reject_send dec.reply c' _ reject_send e))
        (λ _. l.then _ _ _ charged (on_close_conn cid R l c' _ e))
    where
      c' : Conn
      c' = record c { counted = true }

      charged : R w (write c' (count_rejected (stray_fd dec.upstream_fd w)))
      charged =
          l.then _ _ _ (of_stray_fd dec.upstream_fd w)
            (l.then _ _ _ (l.counts _ _ refl) (l.writes c' _ e))

  of_more :
      (lim : Limits) (dec : Decision) (c : Conn) (w : Worker) → c.id ≡ cid → R w (more lim dec c w)
  unfolding more
  of_more lim dec c w e = elim (Option-cases (grow_req lim c)) [
    | inl q ↦ rw (q, more) (l.then _ _ _ stray (on_fail cid R l c _ e))
    | inr (c', q) ↦
        let e' : c'.id ≡ cid = grow_req-id lim c c' q ∙ e in
        rw (q, more)
          (if-rule (R w) (ltb 0 (length dec.reply))
            (λ _. l.then _ _ _ stray (of_start_reply Ops.reply_more dec.reply c' _ reply_more e'))
            (λ _.
              l.then _ _ _ stray
                (l.then _ _ _ (l.writes c' _ e') (on_post_recv_req cid R l c' _ e'))))
  ]
    where
      stray : R w (stray_fd dec.upstream_fd w)
      stray = of_stray_fd dec.upstream_fd w

  of_relay :
      (lim : Limits) (dec : Decision) (c : Conn) (w : Worker) → c.id ≡ cid → R w (relay lim dec c w)
  unfolding relay
  of_relay lim dec c w e =
      if-rule (R w) (ltb 0 (length dec.reply))
        (λ _. of_start_reply Ops.reply_client dec.reply _ w reply_client e)
        (λ _. on_forward_init cid R l lim _ w e)

  pub of_hook_result :
      (lim : Limits) (r : HookResult) (w : Worker) → r.id ≡ cid → R w (on_hook_result lim r w)
  unfolding on_hook_result
  of_hook_result lim r w e = elim (Option-cases (find r.id w.conns)) [
    | inl q ↦ rw (q, on_hook_result) (of_stray_fd r.dec.upstream_fd w)
    | inr (c, q) ↦
        let e' : c.id ≡ cid = find-id r.id c w.conns q ∙ e in
        rw (q, on_hook_result)
          (if-rule (R w) c.closing (λ _. of_stray_fd r.dec.upstream_fd w)
            (λ _.
              if-rule (R w) r.dec.reject
                (λ _. l.then _ _ _ (l.writes _ w e') (of_reject r.dec _ _ e'))
                (λ _.
                  if-rule (R w) r.dec.more
                    (λ _. l.then _ _ _ (l.writes _ w e') (of_more lim r.dec _ _ e'))
                    (λ _. l.then _ _ _ (l.writes _ w e') (of_relay lim r.dec _ _ e')))))
  ]

  pub of_sweep_one : (lim : Limits) (w : Worker) → R w (sweep_one lim cid w)
  unfolding sweep_one
  of_sweep_one lim w = elim (Option-cases (find cid w.conns)) [
    | inl q ↦ rw (q, sweep_one) (l.same w)
    | inr (c, q) ↦
        let e : c.id ≡ cid = find-id cid c w.conns q in
        rw (q, sweep_one)
          (if-rule (R w) (is_idle lim w.tick c)
            (λ _.
              l.then _ _ _ (l.counts _ w refl)
                (l.then _ _ _ (l.writes _ _ e) (on_close_conn cid R l _ _ e)))
            (λ _. l.same w))
  ]
