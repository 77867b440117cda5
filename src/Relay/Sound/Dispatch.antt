-- ===== src/Relay/Sound/Dispatch.antt =====
-- The invariant through one case of the `switch` of a worker of research/gate/cmd/relay-uring/main.go.
use flash_relay.Base.{
  ℕ, ◌+◌, ◌%◌, ◌≤◌, ◌<◌, ◌≡◌, ◌∙◌, refl, sym, ap, inl, inr, [], some, arith, Bool-cases, ==_refl,
  ltb, get_or, length,
}
use mathlib.Core.Path.{subst}
use flash_relay.Base.Table.{lookup}
use flash_relay.Worker.Ops.{ud, unpack, unpack-ud, max_id}
use flash_relay.Relay.State.{RelayCfg, Relay}
use flash_relay.Relay.Ops
use flash_relay.Relay.Ops.{Op, op_code, op_case, op_case-op_code, op_code-lt}
use flash_relay.Relay.Loop.{Completion, on_op, handle}
use flash_relay.Relay.Acts.{
  class, service, start_bit, relay_bit, close_bit, accept_bit, relaying, closing,
}
use flash_relay.Relay.Phase.{Phase}
use flash_relay.Relay.Sound.{Rest, Sound, Armed, PhaseAt, waits, whole, moved}
use flash_relay.Relay.Sound.Switch.{After, held, op-Sound}
use flash_relay.Relay.Sound.Found.{Arrived}
use flash_relay.Relay.Sound.Rounds.{on_eventfd-Sound, post_timeout-Sound}
use flash_relay.Relay.Sound.Accepts.{lt-get_or}
use flash_relay.Relay.Sound.Accepted.{Taken, on_accept-After}

-- The switch selects the case of the operation that a request was tagged with.
pub handle-op :
    (cfg : RelayCfg) (id : ℕ) (op : Op) (e : Completion) (w : Relay)
    → e.user_data ≡ ud id (op_code op)
    → handle cfg e w ≡ on_op cfg (id % max_id) e op w
unfolding handle
handle-op cfg id op e w packed =
    let opened : unpack e.user_data ≡ (id % max_id, op_code op) =
      ap unpack packed ∙ unpack-ud id (op_code op) (op_code-lt op) in
    let selected : op_case (unpack e.user_data).1 ≡ some op =
      ap (λ (x : ℕ × ℕ). op_case x.1) opened ∙ op_case-op_code op in
    rw (selected, handle) (ap (λ (x : ℕ × ℕ). on_op cfg x.0 e op w) opened)

module _ (cfg : RelayCfg) (e : Completion) (w : Relay) (sound : Sound cfg [] w)
    (armed : Armed cfg w) where
  -- The cases that are about no connection and no listener take no notice of the id.
  eventfd-After : (cid : ℕ) → After cfg [] w (on_op cfg cid e Ops.eventfd w)
  unfolding on_op
  eventfd-After cid = held cfg [] w _ armed (on_eventfd-Sound cfg w sound)

  timeout-After : (cid : ℕ) → After cfg [] w (on_op cfg cid e Ops.timeout w)
  unfolding on_op
  timeout-After cid = held cfg [] w _ armed (post_timeout-Sound cfg w sound)

-- One case of the `switch`, on a worker that the completion's request has left.
module _ (cfg : RelayCfg) (id : ℕ) (op : Op) (e : Completion) (w : Relay) (rest : Rest cfg id [] w)
    (arrived : Arrived cfg id [] op w) (armed : accept_bit op ≡ 0 → Armed cfg w)
    (taken : accept_bit op ≡ 1 → Taken cfg id w) (beyond : w.next_id < id → class op ≡ service)
    (small : w.next_id + 1 < max_id) (few : length cfg.lns ≤ max_id) where
  undisturbed : class op ≡ service → Sound cfg [] w
  undisturbed is = whole cfg id [] w rest (λ pos. by_class pos (unfold Arrived in arrived pos))
    where
      by_class :
          0 < id
          → Phase cfg
              (lookup id w.conns)
              (waits id [] w + start_bit (class op))
              (relaying id w + relay_bit (class op))
              (closing id w + close_bit (class op))
          → PhaseAt cfg id [] w
      by_class pos h =
          moved cfg refl (ground (arith, is)) (ground (arith, is)) (ground (arith, is)) h

  -- The accept of a listener that there is.
  listener : accept_bit op ≡ 1 → id < max_id
  listener is =
      let t = taken is in
      let one : 0 < get_or w.accept_inflight id 0 = ground (arith, t.each id, ==_refl id) in
      omega (arith, lt-get_or w.accept_inflight id one, t.listeners)

module _ (cfg : RelayCfg) (id : ℕ) (e : Completion) (w : Relay) (small : w.next_id + 1 < max_id)
    (few : length cfg.lns ≤ max_id) where
  service-After :
      (op : Op) (cid : ℕ)
      → class op ≡ service
      → (accept_bit op ≡ 1 → cid ≡ id)
      → Sound cfg [] w
      → (accept_bit op ≡ 0 → Armed cfg w)
      → (accept_bit op ≡ 1 → Taken cfg id w)
      → After cfg [] w (on_op cfg cid e op w)
  unfolding on_op
  service-After Ops.accept cid is same sound armed taken =
      subst (λ k. After cfg [] w (on_op cfg k e Ops.accept w)) (sym (same refl))
        (on_accept-After cfg id e.res w sound (taken refl) small)
  service-After Ops.eventfd cid is same sound armed taken =
      eventfd-After cfg e w sound (armed refl) cid
  service-After Ops.timeout cid is same sound armed taken =
      timeout-After cfg e w sound (armed refl) cid
  service-After Ops.recv_req cid is same sound armed taken = cc is
  service-After Ops.send_up cid is same sound armed taken = cc is
  service-After Ops.recv_resp cid is same sound armed taken = cc is
  service-After Ops.send_client cid is same sound armed taken = cc is
  service-After Ops.close cid is same sound armed taken = cc is
  service-After _ cid is same sound armed taken = cc is

  pub dispatch :
      (op : Op)
      → Rest cfg id [] w
      → Arrived cfg id [] op w
      → (accept_bit op ≡ 0 → Armed cfg w)
      → (accept_bit op ≡ 1 → Taken cfg id w)
      → (w.next_id < id → class op ≡ service)
      → After cfg [] w (on_op cfg (id % max_id) e op w)
  dispatch op rest arrived armed taken beyond =
      let sound = undisturbed cfg id op e w rest arrived armed taken beyond small few in
      let near = listener cfg id op e w rest arrived armed taken beyond small few in
      elim (Bool-cases (ltb id max_id)) [
        | inl lt ↦
            let same : id % max_id ≡ id = ground (arith, lt) in
            subst (λ k. After cfg [] w (on_op cfg k e op w)) (sym same)
              (op-Sound cfg id [] w rest e op
                (λ is. service-After op id is (λ _. refl) (sound is) armed taken) arrived armed)
        | inr ge ↦
            let is = beyond (ground (arith, ge)) in
            service-After op (id % max_id) is (λ a. let lt = near a in omega arith) (sound is) armed
              taken
      ]
