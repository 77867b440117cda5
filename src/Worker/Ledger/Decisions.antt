-- ===== src/Worker/Ledger/Decisions.antt =====
-- What the decisions of hooks, the last close of a connection and the idle sweep of
-- flashrelay/worker.go charge.
use flash_relay.Base.{
  ℕ, ◌+◌, ◌-◌, ◌≡◌, ◌∙◌, refl, ap, not, ◌&&◌, true, false, List, [], ◌∷◌, some, arith, ◌%◌, ==_refl,
  ltb, leb, length, if-rule, inl, inr, Option-cases,
}
use mathlib.Core.Path.{subst}
use flash_relay.Base.Int.{ℤ, is_pos}
use flash_relay.Worker.State.{Limits, Conn, Counters, Decision, HookResult, Worker}
use flash_relay.Base.Words.{u64_mod}
use flash_relay.Worker.Tokens.{tokens, add_op}
use flash_relay.Worker.Lifecycle.Own.{closing_of}
use flash_relay.Worker.Lifecycle.Rules.{Phase-IsOpen}
use flash_relay.Worker.Ops
use flash_relay.Worker.Ops.{Op}
use flash_relay.Worker.Conns.{
  find, find-id, find-put_self, delete, le_total-find, total, total-delete,
}
use flash_relay.Worker.Actions.{
  post, syscall, write, grow_req, count_rejected, count_completed, post_recv_req,
}
use flash_relay.Worker.Handlers.{on_close}
use flash_relay.Worker.Handlers.Hook.{
  stray_fd, start_reply, reject, more, relay, on_hook_result, clamp_consumed,
}
use flash_relay.Worker.Lifecycle.{Phase, InPhase, deciding, count_results}
use flash_relay.Worker.Ledger.{
  buckets, Booked, Booked_refl, Booked_trans, Booked_of, unnumbered, uncharged, open_conn,
}
use flash_relay.Worker.Ledger.Closures.{
  Agrees, agrees, Agrees-refl, booked, write-Booked, forward_init-Booked, close_conn-Booked,
  fail-Booked,
}

stray-Booked : (fd : ℤ) (w : Worker) → Booked 0 w (stray_fd fd w)
unfolding stray_fd syscall
stray-Booked fd w =
    if-rule (Booked 0 w) (is_pos fd) (λ _. Booked_of 0 w w _ refl refl (Booked_refl w))
      (λ _. Booked_refl w)

conns-stray_fd : (fd : ℤ) (w : Worker) → (stray_fd fd w).conns ≡ w.conns
unfolding stray_fd syscall
conns-stray_fd fd w = ground arith

cnt-stray_fd : (fd : ℤ) (w : Worker) → (stray_fd fd w).cnt ≡ w.cnt
unfolding stray_fd syscall
cnt-stray_fd fd w = ground arith

grow_req-Agrees : (lim : Limits) (c c' : Conn) → grow_req lim c ≡ some c' → Agrees c' c
unfolding grow_req
grow_req-Agrees lim c c' h = ground arith

start_reply-Booked :
    (op : Op) (reply : List ℕ) (c old : Conn) (w : Worker)
    → find c.id w.conns ≡ some old
    → Agrees c old
    → Booked 0 w (start_reply op reply c w)
unfolding start_reply post write
start_reply-Booked op reply c old w found same =
    let c' : Conn = record c { reply_buf = reply; reply_off = 0; reply_end = length reply } in
    let same' = agrees c' old same.id_eq same.counted_eq same.closing_eq same.fd_eq in
    Booked_of 0 w (write c' w) _ refl refl (write-Booked c' old w found same')

module _ (c : Conn) (w : Worker) (found : find c.id w.conns ≡ some c) (going : c.closing ≡ false)
    (held : is_pos c.client_fd ≡ true) where
  relay-Booked : (lim : Limits) (dec : Decision) → Booked 0 w (relay lim dec c w)
  unfolding relay
  relay-Booked lim dec =
      let c' : Conn = record c {
        upstream_fd = dec.upstream_fd;
        init_sent = clamp_consumed dec.consumed c.req_n;
      } in
      let same = agrees c' c refl refl refl refl in
      if-rule (Booked 0 w) (ltb 0 (length dec.reply))
        (λ _. start_reply-Booked Ops.reply_client dec.reply c' c w found same)
        (λ _. forward_init-Booked c' c w found same lim)

  more-Booked : (lim : Limits) (dec : Decision) → Booked 0 w (more lim dec c w)
  unfolding more post_recv_req post
  more-Booked lim dec =
      let w1 = stray_fd dec.upstream_fd w in
      let there : find c.id w1.conns ≡ some c =
        ap (find c.id) (conns-stray_fd dec.upstream_fd w) ∙ found in
      let first = λ (v : Worker) (h : Booked 0 w1 v).
        Booked_trans 0 0 w w1 v (stray-Booked dec.upstream_fd w) h in
      elim (Option-cases (grow_req lim c)) [
        | inl e ↦ rw (e, more) (first _ (fail-Booked c c w1 there (Agrees-refl c) going held))
        | inr (c', e) ↦
            let same = grow_req-Agrees lim c c' e in
            let there' : find c'.id w1.conns ≡ some c =
              ap (λ i. find i w1.conns) same.id_eq ∙ there in
            rw (e, more)
              (if-rule (Booked 0 w) (ltb 0 (length dec.reply))
                (λ _. first _ (start_reply-Booked Ops.reply_more dec.reply c' c w1 there' same))
                (λ _.
                  first _
                    (Booked_of 0 w1 (write c' w1) _ refl refl (write-Booked c' c w1 there' same))))
      ]

  -- A rejection charges the connection, which was not charged before.
  reject-Booked : (dec : Decision) → c.counted ≡ false → Booked 0 w (reject dec c w)
  unfolding reject
  reject-Booked dec fresh = Booked_trans 0 0 w w1 _ paid (
      if-rule (Booked 0 w1) (ltb 0 (length dec.reply))
        (λ _. start_reply-Booked Ops.reject_send dec.reply c' c' w1 there (Agrees-refl c'))
        (λ _. close_conn-Booked c' c' w1 there (Agrees-refl c') going held))
    where
      c' : Conn
      c' = record c { counted = true }

      w0 : Worker
      w0 = stray_fd dec.upstream_fd w

      w1 : Worker
      w1 = write c' (count_rejected w0)

      there : find c'.id w1.conns ≡ some c'
      there =
          unfold write in
          find-put_self c' c w0.conns (ap (find c.id) (conns-stray_fd dec.upstream_fd w) ∙ found)

      paid : Booked 0 w w1
      paid =
          unfold write in
          Booked_trans 0 0 w w0 w1 (stray-Booked dec.upstream_fd w) (
            booked 0 c' c w0 (count_rejected w0).cnt
              (ap (find c.id) (conns-stray_fd dec.upstream_fd w) ∙ found) refl
              (ground (arith, fresh)) refl)

-- A connection whose decision is outstanding has not been charged.
deciding-fresh :
    (r : HookResult) (rest : List HookResult) (c : Conn) (w : Worker)
    → c.closing ≡ false
    → Phase (some c) (tokens r.id w.posted) (deciding r.id (r ∷ rest) w)
    → c.counted ≡ false
unfolding count_results
deciding-fresh r rest c w going p =
    let o = Phase-IsOpen c (tokens r.id w.posted) (deciding r.id (r ∷ rest) w) going p in
    ground (arith, ==_refl r.id, o.one_token, o.charged)

pub hook_result-Booked :
    (lim : Limits) (r : HookResult) (rest : List HookResult) (w : Worker)
    → InPhase r.id (r ∷ rest) w
    → total unnumbered w.conns ≡ 0
    → Booked 0 w (on_hook_result lim r w)
unfolding on_hook_result write
hook_result-Booked lim r rest w p numbered = elim (Option-cases (find r.id w.conns)) [
  | inl e ↦ rw (e, on_hook_result) (stray-Booked r.dec.upstream_fd w)
  | inr (c, e) ↦
      let same : c.id ≡ r.id = find-id r.id c w.conns e in
      let own : find c.id w.conns ≡ some c = ap (λ i. find i w.conns) same ∙ e in
      let held : is_pos c.client_fd ≡ true =
        ground (arith, le_total-find unnumbered r.id c w.conns e) in
      let c' : Conn = record c { last_tick = w.tick } in
      let w1 = write c' w in
      let there : find c'.id w1.conns ≡ some c' = find-put_self c' c w.conns own in
      let first = λ (v : Worker) (h : Booked 0 w1 v).
        Booked_trans 0 0 w w1 v (write-Booked c' c w own (agrees c' c refl refl refl refl)) h in
      let fresh = λ (going : c.closing ≡ false).
        deciding-fresh r rest c w going
          (subst (λ o. Phase o (tokens r.id w.posted) (deciding r.id (r ∷ rest) w)) e p.phase) in
      rw (e, on_hook_result)
        (if-rule (Booked 0 w) c.closing (λ _. stray-Booked r.dec.upstream_fd w)
          (λ going.
            if-rule (Booked 0 w) r.dec.reject
              (λ _. first _ (reject-Booked c' w1 there going held r.dec (fresh going)))
              (λ _.
                if-rule (Booked 0 w) r.dec.more
                  (λ _. first _ (more-Booked c' w1 there going held lim r.dec))
                  (λ _. first _ (relay-Booked c' w1 there going held lim r.dec)))))
]

-- A connection that is closing leaves the map.
gone :
    (cid : ℕ) (c : Conn) (w : Worker) (cnt : Counters)
    → find cid w.conns ≡ some c
    → c.closing ≡ true
    → (buckets cnt + w.cnt.accepted) % u64_mod
      ≡ (buckets w.cnt + uncharged c + cnt.accepted) % u64_mod
    → cnt.live ≡ w.cnt.live
    → Booked 0 w (record w { conns = delete cid w.conns; cnt = cnt })
gone cid c w cnt found shut charge live = record {
  charged = omega (arith, charge, total-delete uncharged cid c w.conns found);
  living = ground (arith, shut, live, total-delete open_conn cid c w.conns found);
  numbered = omega (arith, total-delete unnumbered cid c w.conns found);
}

-- The last close of a connection charges it where nothing has.
pub on_close-Booked :
    (cid : ℕ) (w : Worker)
    → Phase (find cid w.conns) (add_op Ops.close (tokens cid w.posted)) (deciding cid [] w)
    → Booked 0 w (on_close cid w)
unfolding on_close write
on_close-Booked cid w p = elim (Option-cases (find cid w.conns)) [
  | inl e ↦ rw (e, on_close) (Booked_refl w)
  | inr (c, e) ↦
      let same : c.id ≡ cid = find-id cid c w.conns e in
      let own : find c.id w.conns ≡ some c = ap (λ i. find i w.conns) same ∙ e in
      let c' : Conn = record c { closes_left = c.closes_left - 1 } in
      let w1 = write c' w in
      let t = tokens cid w.posted in
      let (shut, was) =
        closing_of c t (deciding cid [] w)
          (subst (λ o. Phase o (add_op Ops.close t) (deciding cid [] w)) e p) in
      let first = write-Booked c' c w own (agrees c' c refl refl refl refl) in
      let there : find cid w1.conns ≡ some c' =
        subst (λ i. find i w1.conns ≡ some c') same (find-put_self c' c w.conns own) in
      rw (e, on_close)
        (if-rule (Booked 0 w) (leb c'.closes_left 0)
          (λ _. Booked_trans 0 0 w w1 _ first (
            if-rule (λ v. Booked 0 w1 (record v { conns = delete cid v.conns }))
              (not c.counted && c.relay_started)
              (λ due. gone cid c' w1 (count_completed w1).cnt there shut (ground (arith, due)) refl)
              (λ not_due.
                gone cid c' w1 w1.cnt there shut (ground (arith, was.accounted, not_due)) refl)))
          (λ _. first))
]
