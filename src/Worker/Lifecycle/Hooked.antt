-- ===== src/Worker/Lifecycle/Hooked.antt =====
-- A hook's result in flashrelay/worker.go keeps its connection in phase.
use flash_relay.Base.{
  ℕ, suc, ◌-◌, ◌≤◌, ◌<◌, ◌≡◌, ◌∙◌, refl, ap, sym, true, false, List, ◌∷◌, ◌++◌, some, inl, inr,
  arith, Option, leb, if-rule, if◌then◌else◌, Option-cases, ltb, length, ==_refl, take, replicate,
  ◌*◌,
}
use mathlib.Core.Path.{subst}
use flash_relay.Base.Int.{ℤ, is_pos}
use flash_relay.Worker.State.{Limits, Conn, Decision, HookResult, Worker, Syscall, close_fd}
use flash_relay.Worker.Ops
use flash_relay.Worker.Ops.{Op, max_id}
use flash_relay.Worker.Conns.{find, count_id, count_id-put, find-put_self, find-id}
use flash_relay.Worker.Actions.{
  post, syscall, write, close_conn, fail, grow_req, post_recv_req, count_rejected,
}
use flash_relay.Worker.Handlers.Hook.{
  stray_fd, start_reply, reject, more, relay, on_hook_result, clamp_consumed,
}
use flash_relay.Worker.Tokens.{tokens}
use flash_relay.Worker.Lifecycle.{IsOpen, Phase, InPhase, deciding, count_results}
use flash_relay.Worker.Lifecycle.Rules.{Phase-IsOpen, reissue, forward_init-InPhase}
use flash_relay.Worker.Lifecycle.Cases.{failed, closed}

-- Whatever holds with any trace of system calls holds behind the close of a stray fd.
pub stray-rule :
    (P : Worker → Type 0) (fd : ℤ) (w : Worker)
    → ((calls : List Syscall) → P (record w { calls = calls }))
    → P (stray_fd fd w)
unfolding stray_fd syscall
stray-rule P fd w h = if-rule P (is_pos fd) (λ _. h (close_fd fd ∷ w.calls)) (λ _. h w.calls)

-- `growReq` changes nothing but the buffer.
grow_req-buf :
    (lim : Limits) (c c' : Conn)
    → grow_req lim c ≡ some c'
    → (buf : List ℕ) × (c' ≡ record c { req_buf = buf })
unfolding grow_req
grow_req-buf lim c c' h =
    if-rule P (ltb c.req_n (length c.req_buf))
      (λ _ e. let same : c ≡ c' = cc in (c.req_buf, sym same))
      (λ _.
        if-rule P (leb lim.max_req_len (length c.req_buf)) (λ _ e. absurd (ground arith))
          (λ _ e. let same : record c { req_buf = grown } ≡ c' = cc in (grown, sym same)))
      h
  where
    len : ℕ
    len = length c.req_buf

    grown : List ℕ
    grown =
        take c.req_n c.req_buf
        ++ replicate
            ((if ltb lim.max_req_len (len * 2) then lim.max_req_len else len * 2) - c.req_n) 0

    P : Option Conn → Type 0
    P found = found ≡ some c' → (buf : List ℕ) × (c' ≡ record c { req_buf = buf })

module _ (rest : List HookResult) (c : Conn) (w : Worker) (s : c.id < max_id)
    (u : count_id c.id w.conns ≤ 1) (f : find c.id w.conns ≡ some c) (n : c.closing ≡ false)
    (o : IsOpen c (tokens c.id w.posted) (suc (deciding c.id rest w))) where
  of_reject : (dec : Decision) → InPhase c.id rest (reject dec c w)
  unfolding reject start_reply write post
  of_reject dec =
      let c' : Conn = record c { counted = true } in
      let c'' : Conn = record c' {
        reply_buf = dec.reply;
        reply_off = 0;
        reply_end = length dec.reply;
      } in
      stray-rule
        (λ v. InPhase c.id rest (
          if ltb 0 (length dec.reply)
          then start_reply Ops.reject_send dec.reply c' (write c' (count_rejected v))
          else close_conn c' (write c' (count_rejected v))))
        dec.upstream_fd w
        (λ calls.
          let v = count_rejected (record w { calls = calls }) in
          if-rule (InPhase c.id rest) (ltb 0 (length dec.reply))
            (λ _. record {
              phase =
                  reissue c'' c' (write c' v) (deciding c.id rest w) (find-put_self c' c w.conns f)
                    Ops.reject_send _ s refl n (ground arith);
            })
            (λ _. closed rest c' c v s u f n o.no_close (ground arith)))

  of_relay : (lim : Limits) (dec : Decision) → InPhase c.id rest (relay lim dec c w)
  unfolding relay start_reply write post
  of_relay lim dec =
      let c' : Conn = record c {
        upstream_fd = dec.upstream_fd;
        init_sent = clamp_consumed dec.consumed c.req_n;
      } in
      let c'' : Conn = record c' {
        reply_buf = dec.reply;
        reply_off = 0;
        reply_end = length dec.reply;
      } in
      let d = deciding c.id rest w in
      if-rule (InPhase c.id rest) (ltb 0 (length dec.reply))
        (λ _. record { phase = reissue c'' c w d f Ops.reply_client _ s refl n (ground arith) })
        (λ _. forward_init-InPhase c' c w d f rest lim refl s n (ground arith))

  -- What `More` does once there is room.
  again : Decision → Conn → Worker → Worker
  again dec c' v =
      if ltb 0 (length dec.reply)
      then start_reply Ops.reply_more dec.reply c' v
      else post_recv_req c' (write c' v)

  again-InPhase :
      (dec : Decision) (buf : List ℕ) (calls : List Syscall)
      → InPhase c.id rest (again dec (record c { req_buf = buf }) (record w { calls = calls }))
  unfolding again start_reply post_recv_req write post
  again-InPhase dec buf calls =
      let c' : Conn = record c { req_buf = buf } in
      let c'' : Conn = record c' {
        reply_buf = dec.reply;
        reply_off = 0;
        reply_end = length dec.reply;
      } in
      let d = deciding c.id rest w in
      if-rule (InPhase c.id rest) (ltb 0 (length dec.reply))
        (λ _. record { phase = reissue c'' c w d f Ops.reply_more _ s refl n (ground arith) })
        (λ _. record { phase = reissue c' c w d f Ops.recv_req _ s refl n (ground arith) })

  of_more : (lim : Limits) (dec : Decision) → InPhase c.id rest (more lim dec c w)
  unfolding more again
  of_more lim dec = elim (Option-cases (grow_req lim c)) [
    | inl q ↦
        rw (q, more)
          (stray-rule (λ v. InPhase c.id rest (fail c v)) dec.upstream_fd w
            (λ calls. failed rest c (record w { calls = calls }) s u f n o.no_close))
    | inr (c', q) ↦
        let (buf, same) = grow_req-buf lim c c' q in
        rw (q, more)
          (subst (λ x. InPhase c.id rest (again dec x (stray_fd dec.upstream_fd w))) (sym same)
            (stray-rule (λ v. InPhase c.id rest (again dec (record c { req_buf = buf }) v))
              dec.upstream_fd w (again-InPhase dec buf)))
  ]

-- The result of a hook, which counts until here.
pub on_hook_result-InPhase :
    (lim : Limits) (r : HookResult) (rest : List HookResult) (w : Worker)
    → r.id < max_id
    → count_id r.id w.conns ≤ 1
    → InPhase r.id (r ∷ rest) w
    → InPhase r.id rest (on_hook_result lim r w)
unfolding on_hook_result
on_hook_result-InPhase lim r rest w s u before = elim (Option-cases (find r.id w.conns)) [
  | inl e ↦
      rw (e, on_hook_result)
        (stray-rule (InPhase r.id rest) r.dec.upstream_fd w (λ calls. record { phase = rw e tt }))
  | inr (c, e) ↦
      let same : c.id ≡ r.id = find-id r.id c w.conns e in
      let before' : Phase (some c) (tokens r.id w.posted) (deciding r.id (r ∷ rest) w) =
        subst (λ o. Phase o (tokens r.id w.posted) (deciding r.id (r ∷ rest) w)) e before.phase in
      rw (e, on_hook_result)
        (if-rule (InPhase r.id rest) c.closing
          (λ shut.
            stray-rule (InPhase r.id rest) r.dec.upstream_fd w
              (λ calls. record { phase = rw e (still c shut before') }))
          (λ going.
            subst (λ i. InPhase i rest (decided c)) same
              (opened c (rw same s) (rw same u) (ap (λ i. find i w.conns) same ∙ e) going (
                subst (λ i. IsOpen c (tokens i w.posted) (suc (deciding i rest w))) (sym same)
                  (subst (λ d. IsOpen c (tokens r.id w.posted) d) counted
                    (Phase-IsOpen c _ _ going before'))))))
]
  where
    ticked : Conn → Conn
    ticked c = record c { last_tick = w.tick }

    decided : Conn → Worker
    decided c =
        if r.dec.reject
        then reject r.dec (ticked c) (write (ticked c) w)
        else if r.dec.more
        then more lim r.dec (ticked c) (write (ticked c) w)
        else relay lim r.dec (ticked c) (write (ticked c) w)

    counted : deciding r.id (r ∷ rest) w ≡ suc (deciding r.id rest w)
    counted = unfold count_results in ground (arith, ==_refl r.id)

    still :
        (c : Conn)
        → c.closing ≡ true
        → Phase (some c) (tokens r.id w.posted) (deciding r.id (r ∷ rest) w)
        → Phase (some c) (tokens r.id w.posted) (deciding r.id rest w)
    still c shut (inl p) = absurd (cc (shut, p.0))
    still c shut (inr p) = inr p

    opened :
        (c : Conn)
        → c.id < max_id
        → count_id c.id w.conns ≤ 1
        → find c.id w.conns ≡ some c
        → c.closing ≡ false
        → IsOpen c (tokens c.id w.posted) (suc (deciding c.id rest w))
        → InPhase c.id rest (decided c)
    opened c s u f n o =
        let v = write (ticked c) w in
        let u' : count_id c.id v.conns ≤ 1 =
          unfold write in rw (count_id-put c.id (ticked c) w.conns) u in
        let f' : find c.id v.conns ≡ some (ticked c) =
          unfold write in find-put_self (ticked c) c w.conns f in
        let o' : IsOpen (ticked c) (tokens c.id v.posted) (suc (deciding c.id rest v)) =
          unfold write in ground arith in
        if-rule (InPhase c.id rest) r.dec.reject
          (λ _. of_reject rest (ticked c) v s u' f' n o' r.dec)
          (λ _.
            if-rule (InPhase c.id rest) r.dec.more
              (λ _. of_more rest (ticked c) v s u' f' n o' lim r.dec)
              (λ _. of_relay rest (ticked c) v s u' f' n o' lim r.dec))
