-- ===== src/Relay/Phase/Starts.antt =====
-- The cases of research/gate/cmd/relay-uring/main.go before the relay in both directions land their
-- connection in phase.
use flash_relay.Base.{
  ℕ, ◌+◌, ◌≤◌, ◌≡◌, refl, inl, inr, not, ◌&&◌, Option, some, arith, if-rule, if◌then◌else◌,
  Bool-cases, take, length,
}
use flash_relay.Base.Int.{ℤ, is_neg, is_nonpos, pos_part}
use flash_relay.Base.Words.{add64}
use flash_relay.Base.Table.{lookup, entries}
use flash_relay.Relay.State.{Pipe, Conn, HookResult, RelayCfg, recv, send, Relay}
use flash_relay.Relay.Ops
use flash_relay.Relay.Actions.{tag, post, write, close_conn}
use flash_relay.Relay.Cases.{
  count_err, recv_req_found, send_up_found, recv_resp_found, send_client_found,
}
use flash_relay.Relay.Acts.{first_then}
use flash_relay.Relay.Acts.Moves.{Acts-note, Acts-post, Acts-write, Acts-job}
use flash_relay.Relay.Phase.{IsStarting}
use flash_relay.Relay.Phase.Landing.{Lands, before, close_conn-Lands}
use flash_relay.Relay.Phase.Takeover.{goes_on, fails, own, start_duplex-Lands, start_splice-Lands}

module _ (cfg : RelayCfg) (c : Conn) (w : Relay) (p l k : ℕ) (found : lookup c.id w.conns ≡ some c)
    (once : entries c.id w.conns ≤ 1) (h : IsStarting c (p + 1) l k) where
  pub recv_req-Lands : (res : ℤ) → Lands cfg c.id w (recv_req_found cfg res c w) p l k
  unfolding recv_req_found
  recv_req-Lands res =
      let c' : Conn = record c { req_n = pos_part res } in
      let wrote = Acts-write cfg c' c w found in
      if-rule (λ v. Lands cfg c.id w v p l k) (is_nonpos res)
        (λ _. fails cfg c w p l k found once h)
        (λ _.
          goes_on cfg c w p l k found once h c' _
            (first_then wrote (Acts-job cfg c.id (write c' w) (some c') wrote.own wrote.named))
            h.going h.no_pipes)

  pub recv_resp-Lands : (res : ℤ) → Lands cfg c.id w (recv_resp_found cfg res c w) p l k
  unfolding recv_resp_found
  recv_resp-Lands res =
      let r = send c.client_fd (take (pos_part res) c.resp_buf) (tag c.id Ops.send_client) in
      if-rule (λ v. Lands cfg c.id w v p l k) (is_nonpos res)
        (λ _. fails cfg c w p l k found once h)
        (λ _.
          goes_on cfg c w p l k found once h c _
            (Acts-post cfg c.id w (some c) found (own cfg c w p l k found once h) r refl refl)
            h.going h.no_pipes)

  pub send_client-Lands : (res : ℤ) → Lands cfg c.id w (send_client_found cfg res c w) p l k
  unfolding send_client_found
  send_client-Lands res = elim (Bool-cases (is_neg res)) [
    | inl e ↦ rw e (fails cfg c w p l k found once h)
    | inr e ↦ rw e (
        before
          (Acts-note cfg c.id w (some c) found (own cfg c w p l k found once h) w.calls w.errs
            (add64 w.completed 1) (add64 w.g_completed 1))
          (close_conn-Lands cfg c c _ found once refl h.going p l k (omega (arith, h.one))
            (omega (arith, h.no_close)) (λ _. h.no_relay)))
  ]

module _ (cfg : RelayCfg) (c : Conn) (w : Relay) (p l k : ℕ) (found : lookup c.id w.conns ≡ some c)
    (once : entries c.id w.conns ≤ 1) (h : IsStarting c (p + 1) l k) where
  pub send_up-Lands :
      (q q' : Option Pipe) (res : ℤ) → Lands cfg c.id w (send_up_found cfg q q' res c w) p l k
  unfolding send_up_found
  send_up-Lands q q' res =
      let r = recv c.upstream_fd (length c.resp_buf) (tag c.id Ops.recv_resp) in
      if-rule (λ v. Lands cfg c.id w v p l k) (is_neg res) (λ _. fails cfg c w p l k found once h)
        (λ _.
          if-rule (λ v. Lands cfg c.id w v p l k) (cfg.duplex && cfg.splice)
            (λ both. start_splice-Lands cfg c w p l k found once h q q' (ground (arith, both)))
            (λ _.
              if-rule (λ v. Lands cfg c.id w v p l k) cfg.duplex
                (λ both. start_duplex-Lands cfg c w p l k found once h both)
                (λ _.
                  goes_on cfg c w p l k found once h c _
                    (Acts-post cfg c.id w (some c) found (own cfg c w p l k found once h) r refl
                      refl)
                    h.going h.no_pipes)))

  -- The decision of a hook: the upstream is adopted, or the connection closes.
  pub decided-Lands :
      (r : HookResult)
      → Lands cfg c.id w
          (if not r.ok
            then close_conn cfg c (count_err w)
            else post
                (send r.upstream_fd (take c.req_n c.req_buf) (tag c.id Ops.send_up))
                (write (record c { upstream_fd = r.upstream_fd }) w))
          p
          l
          k
  decided-Lands r =
      let c' : Conn = record c { upstream_fd = r.upstream_fd } in
      let wrote = Acts-write cfg c' c w found in
      let s = send r.upstream_fd (take c.req_n c.req_buf) (tag c.id Ops.send_up) in
      if-rule (λ v. Lands cfg c.id w v p l k) (not r.ok) (λ _. fails cfg c w p l k found once h)
        (λ _.
          goes_on cfg c w p l k found once h c' _
            (first_then wrote
              (Acts-post cfg c.id (write c' w) (some c') wrote.own wrote.named s refl refl))
            h.going h.no_pipes)
