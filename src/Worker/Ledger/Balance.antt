-- ===== src/Worker/Ledger/Balance.antt =====
-- The ledger through every run of a worker of flashrelay/worker.go.
use flash_relay.Base.{
  ℕ, zero, suc, ◌+◌, ◌<◌, ◌≡◌, ◌%◌, refl, List, [], ◌∷◌, none, some, arith, if-rule, inl, inr,
  Option-cases, get_elem?, length, ◌==◌, ltb, ◌&&◌,
}
use flash_relay.Base.Int.{ℤ}
use flash_relay.Base.Words.{u64_mod}
use flash_relay.Worker.State.{Limits, Decision, Worker, Request}
use flash_relay.Worker.Ops.{op_case, unpack, max_id}
use flash_relay.Worker.Conns.{total, total-nil}
use flash_relay.Worker.Actions.{post, post_accept, post_eventfd, post_timeout}
use flash_relay.Worker.Loop.{check_overflow, top_up, start}
use flash_relay.Base.Sums.{remove_at}
use flash_relay.Worker.Kernel.{
  World, Event, completes, decides, overflows, tops_up, user_data, deliver, complete, decide, step,
  run, boot,
}
use flash_relay.Worker.Lifecycle.Sound.{Sound}
use flash_relay.Worker.Lifecycle.Arrivals.{left-Rest, left-Pending, deliver-Received}
use flash_relay.Worker.Lifecycle.Always.{step-Sound, start-Sound}
use flash_relay.Worker.Ledger.{
  buckets, Booked, Booked_refl, Booked_cast, Booked_trans, Booked_of, unnumbered, uncharged,
  open_conn,
}
use flash_relay.Worker.Ledger.Switch.{surplus_op, zero_op, handle-Booked, deliver-Booked}

-- The request at an index of `posted` completes: its surplus, and whether it is an accept of fd 0.
unfoldable pub surplus_at : Limits → Event → World → ℕ
surplus_at lim (completes i res bytes) s = elim (get_elem? s.worker.posted i) [
  | none ↦ 0
  | some r ↦
      let w : Worker = record s.worker { posted = remove_at i s.worker.posted } in
      surplus_op lim res (op_case (unpack (user_data r)).1) (deliver r bytes w)
]
surplus_at lim _ s = 0

unfoldable pub zero_at : Event → World → ℕ
zero_at (completes i res bytes) s = elim (get_elem? s.worker.posted i) [
  | none ↦ 0
  | some r ↦ zero_op res (op_case (unpack (user_data r)).1)
]
zero_at _ s = 0

-- Both over a run.
unfoldable pub surplus : Limits → List Event → World → ℕ
surplus lim [] s = 0
surplus lim (e ∷ es) s = surplus_at lim e s + surplus lim es (step lim e s)

unfoldable pub zero_fds : Limits → List Event → World → ℕ
zero_fds lim [] s = 0
zero_fds lim (e ∷ es) s = zero_at e s + zero_fds lim es (step lim e s)

-- A completion takes its request out of flight, which is no matter of the ledger.
complete-Booked :
    (lim : Limits) (i : ℕ) (res : ℤ) (bytes : List ℕ) (s : World)
    → Sound [] s.worker
    → s.worker.next_id < max_id
    → total unnumbered s.worker.conns ≡ 0
    → zero_at (completes i res bytes) s ≡ 0
    → Booked (surplus_at lim (completes i res bytes) s) s.worker (complete lim i res bytes s).worker
unfolding complete surplus_at zero_at
complete-Booked lim i res bytes s h room numbered z =
    elim (Option-cases (get_elem? s.worker.posted i)) [
      | inl e ↦ rw (e, complete, surplus_at) (Booked_refl s.worker)
      | inr (r, e) ↦
          let o = op_case (unpack (user_data r)).1 in
          let w : Worker = record s.worker { posted = remove_at i s.worker.posted } in
          let v = deliver r bytes w in
          let got =
            deliver-Received r bytes o w (left-Rest i r s.worker e h)
              (left-Pending i r s.worker e h) in
          let first = Booked_of 0 s.worker s.worker w refl refl (Booked_refl s.worker) in
          let wrote = Booked_trans 0 0 s.worker w v first (deliver-Booked r bytes w) in
          rw (e, complete, surplus_at)
            (Booked_cast (omega arith) (
              Booked_trans 0 (surplus_op lim res o v) s.worker v _ wrote (
                handle-Booked lim r res v got.rest got.pending (omega (arith, got.same_next))
                  (omega (arith, numbered, wrote.numbered)) (zero_of e z))))
    ]
  where
    zero_of :
        {r : Request}
        → get_elem? s.worker.posted i ≡ some r
        → zero_at (completes i res bytes) s ≡ 0
        → zero_op res (op_case (unpack (user_data r)).1) ≡ 0
    zero_of e z = rw (e, zero_at) at z

top_up-Booked : (fuel : ℕ) (lim : Limits) (w : Worker) → Booked 0 w (top_up fuel lim w)
unfolding top_up post_accept post
top_up-Booked zero lim w = Booked_refl w
top_up-Booked (suc fuel) lim w =
    let more = top_up-Booked fuel lim (post_accept w) in
    if-rule (Booked 0 w)
      (ltb w.accept_inflight lim.accept_batch
        && ltb (length w.conns + w.accept_inflight) lim.max_conns)
      (λ _.
        Booked_trans 0 0 w (post_accept w) _
          (Booked_of 0 w w (post_accept w) refl refl (Booked_refl w)) more)
      (λ _. Booked_refl w)

decide-Booked : (i : ℕ) (dec : Decision) (s : World) → Booked 0 s.worker (decide i dec s).worker
unfolding decide
decide-Booked i dec s = elim (Option-cases (get_elem? s.worker.jobs i)) [
  | inl e ↦ rw (e, decide) (Booked_refl s.worker)
  | inr (j, e) ↦ rw (e, decide) (Booked_of 0 s.worker s.worker _ refl refl (Booked_refl s.worker))
]

step-Booked :
    (lim : Limits) (e : Event) (s : World)
    → Sound [] s.worker
    → s.worker.next_id < max_id
    → total unnumbered s.worker.conns ≡ 0
    → zero_at e s ≡ 0
    → Booked (surplus_at lim e s) s.worker (step lim e s).worker
unfolding step surplus_at
step-Booked lim (completes i res bytes) s h room numbered z =
    unfold surplus_at in complete-Booked lim i res bytes s h room numbered z
step-Booked lim (decides i dec) s h room numbered z = decide-Booked i dec s
step-Booked lim (overflows ov) s h room numbered z =
    unfold check_overflow in
    if-rule (Booked 0 s.worker) (ov == s.worker.last_overflow) (λ _. Booked_refl s.worker)
      (λ _. record { charged = omega arith; living = omega arith; numbered = omega arith })
step-Booked lim tops_up s h room numbered z = top_up-Booked lim.accept_batch lim s.worker

run-Booked :
    (lim : Limits) (es : List Event) (s : World)
    → Sound [] s.worker
    → s.worker.next_id + length es < max_id
    → total unnumbered s.worker.conns ≡ 0
    → zero_fds lim es s ≡ 0
    → Booked (surplus lim es s) s.worker (run lim es s).worker
unfolding run surplus zero_fds
run-Booked lim [] s h room numbered z = Booked_refl s.worker
run-Booked lim (e ∷ es) s h room numbered z =
    let t = step lim e s in
    let one = step-Sound lim e s h (omega arith) in
    let paid = step-Booked lim e s h (omega arith) numbered (omega (arith, z)) in
    Booked_trans (surplus_at lim e s) (surplus lim es t) s.worker t.worker _ paid (
      run-Booked lim es t one.sound (omega (arith, one.next_le))
        (omega (arith, numbered, paid.numbered)) (omega (arith, z)))

boot-Booked :
    (lim : Limits) (es : List Event)
    → length es < max_id
    → zero_fds lim es boot ≡ 0
    → Booked (surplus lim es boot) boot.worker (run lim es boot).worker
boot-Booked lim es few z =
    run-Booked lim es boot start-Sound (unfold start post_timeout post_eventfd post in omega arith)
      (unfold start post_timeout post_eventfd post in total-nil unnumbered) z

-- Whatever the kernel and the hooks do in fewer than 2^56 events, where no accept returns fd 0, the
-- terminal counters (Completed, Rejected, Shed, IdleClosed and Errors) and the connections in the
-- map that are not charged yet add up, in 64 bits, to the accepted connections, the failed accepts,
-- and the connections that an idle sweep closed although they were charged already.
pub charged_once :
    (lim : Limits) (es : List Event)
    → length es < max_id
    → zero_fds lim es boot ≡ 0
    → (buckets (run lim es boot).worker.cnt + total uncharged (run lim es boot).worker.conns)
        % u64_mod
      ≡ ((run lim es boot).worker.cnt.accepted + surplus lim es boot) % u64_mod
charged_once lim es few z =
    let b = boot-Booked lim es few z in
    unfold start post_timeout post_eventfd post in omega (arith, b.charged, total-nil uncharged)

-- Whatever the kernel and the hooks do in fewer than 2^56 events, where no accept returns fd 0, the
-- live counter is, in 64 bits, the number of connections in the map that are not closing.
pub live-counts :
    (lim : Limits) (es : List Event)
    → length es < max_id
    → zero_fds lim es boot ≡ 0
    → (run lim es boot).worker.cnt.live % u64_mod
      ≡ total open_conn (run lim es boot).worker.conns % u64_mod
live-counts lim es few z =
    let b = boot-Booked lim es few z in
    unfold start post_timeout post_eventfd post in omega (arith, b.living, total-nil open_conn)
