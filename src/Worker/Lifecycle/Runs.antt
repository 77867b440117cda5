-- ===== src/Worker/Lifecycle/Runs.antt =====
-- The invariant through every run of a worker of flashrelay/worker.go.
use flash_relay.Base.{
  ℕ, zero, suc, ◌+◌, ◌<◌, ◌≡◌, refl, ap, List, [], ◌∷◌, ◌++◌, some, inl, inr, arith, if-rule,
  Option-cases, ◌==◌, get_elem?,
}
use mathlib.Core.Path.{subst}
use flash_relay.Base.Int.{ℤ}
use flash_relay.Bridge.{Bridge, push, append, wake, swap, signal}
use flash_relay.Worker.State.{Limits, Decision, HookResult, Job, Request, Worker}
use flash_relay.Worker.Ops
use flash_relay.Worker.Ops.{Op, op_code, op_case, ud, unpack, max_id}
use flash_relay.Worker.Loop.{on_op, handle, check_overflow}
use flash_relay.Base.Sums.{remove_at}
use flash_relay.Worker.Kernel.{World, user_data, deliver, complete, decide}
use flash_relay.Worker.Footprint.{
  IsTransfer, recv_req, reply_client, reply_more, send_up, reject_send, c2u_recv, c2u_send,
  u2c_recv, u2c_send,
}
use flash_relay.Worker.Lifecycle.{count_jobs, count_results, bit}
use flash_relay.Worker.Lifecycle.Sound.{Rest, Sound, whole, carry}
use flash_relay.Worker.Lifecycle.Switch.{SoundAfter, SoundHeld, transfer-Sound, close-Sound}
use flash_relay.Worker.Lifecycle.Accepts.{on_accept-Sound}
use flash_relay.Worker.Lifecycle.Rounds.{on_eventfd-Sound, on_timeout-Sound}
use flash_relay.Worker.Lifecycle.Arrivals.{Pending, left-Rest, left-Pending, deliver-Received}

after : (u v : Worker) → SoundHeld [] u v → SoundAfter [] u v
after u v h = record { sound = h.sound; next_le = omega (arith, h.next_eq) }

module _ (lim : Limits) (cid : ℕ) (res : ℤ) (w : Worker) (h : Rest cid [] w)
    (room : suc w.next_id < max_id) where
  transfer :
      (op : Op) → IsTransfer op → Pending cid (some op) w → SoundAfter [] w (on_op lim cid res op w)
  unfolding Pending
  transfer op t p = after w _ (transfer-Sound cid [] w h (omega arith) lim res op t p)

module _ (lim : Limits) (cid : ℕ) (res : ℤ) (w : Worker) (h : Rest cid [] w)
    (room : suc w.next_id < max_id) where
  -- The switch, for the connection that its completion still counts.
  on_op-Sound : (op : Op) → Pending cid (some op) w → SoundAfter [] w (on_op lim cid res op w)
  unfolding on_op Pending
  on_op-Sound Ops.accept p =
      on_accept-Sound [] lim res w (whole cid [] w h (record { phase = p })) room
  on_op-Sound Ops.eventfd p =
      after w _ (on_eventfd-Sound lim w (omega arith) (whole cid [] w h (record { phase = p })))
  on_op-Sound Ops.timeout p =
      after w _ (on_timeout-Sound lim w (omega arith) (whole cid [] w h (record { phase = p })))
  on_op-Sound Ops.close p = after w _ (close-Sound cid [] w h (omega arith) p)
  on_op-Sound Ops.recv_req p = transfer lim cid res w h room Ops.recv_req recv_req p
  on_op-Sound Ops.reply_client p = transfer lim cid res w h room Ops.reply_client reply_client p
  on_op-Sound Ops.reply_more p = transfer lim cid res w h room Ops.reply_more reply_more p
  on_op-Sound Ops.send_up p = transfer lim cid res w h room Ops.send_up send_up p
  on_op-Sound Ops.reject_send p = transfer lim cid res w h room Ops.reject_send reject_send p
  on_op-Sound Ops.c2u_recv p = transfer lim cid res w h room Ops.c2u_recv c2u_recv p
  on_op-Sound Ops.c2u_send p = transfer lim cid res w h room Ops.c2u_send c2u_send p
  on_op-Sound Ops.u2c_recv p = transfer lim cid res w h room Ops.u2c_recv u2c_recv p
  on_op-Sound Ops.u2c_send p = transfer lim cid res w h room Ops.u2c_send u2c_send p

handle-Sound :
    (lim : Limits) (r : Request) (res : ℤ) (w : Worker)
    → Rest (unpack (user_data r)).0 [] w
    → Pending (unpack (user_data r)).0 (op_case (unpack (user_data r)).1) w
    → suc w.next_id < max_id
    → SoundAfter [] w (handle lim (record { user_data = user_data r; res = res }) w)
unfolding handle Pending
handle-Sound lim r res w h p room = elim (Option-cases (op_case (unpack (user_data r)).1)) [
  | inl e ↦
      rw (e, handle)
        (record {
          sound =
              whole (unpack (user_data r)).0 [] w h
                (record { phase = subst (λ o. Pending (unpack (user_data r)).0 o w) e p });
          next_le = omega arith;
        })
  | inr (op, e) ↦
      rw (e, handle)
        (on_op-Sound lim (unpack (user_data r)).0 res w h room op
          (subst (λ o. Pending (unpack (user_data r)).0 o w) e p))
]

pub complete-Sound :
    (lim : Limits) (i : ℕ) (res : ℤ) (bytes : List ℕ) (s : World)
    → Sound [] s.worker
    → suc s.worker.next_id < max_id
    → SoundAfter [] s.worker (complete lim i res bytes s).worker
unfolding complete
complete-Sound lim i res bytes s h room = elim (Option-cases (get_elem? s.worker.posted i)) [
  | inl e ↦ rw (e, complete) (record { sound = h; next_le = omega arith })
  | inr (r, e) ↦
      let w : Worker = record s.worker { posted = remove_at i s.worker.posted } in
      let got =
        deliver-Received r bytes (op_case (unpack (user_data r)).1) w (left-Rest i r s.worker e h)
          (left-Pending i r s.worker e h) in
      let done =
        handle-Sound lim r res (deliver r bytes w) got.rest got.pending
          (omega (arith, got.same_next)) in
      rw (e, complete)
        (record { sound = done.sound; next_le = omega (arith, done.next_le, got.same_next) })
]

count_jobs-remove_at :
    (id i : ℕ) (j : Job) (js : List Job)
    → get_elem? js i ≡ some j
    → count_jobs id (remove_at i js) + bit (j.id == id) ≡ count_jobs id js
unfolding count_jobs remove_at
count_jobs-remove_at id i j [] e = ground arith
count_jobs-remove_at id zero j (x ∷ js) e = ground arith
count_jobs-remove_at id (suc i) j (x ∷ js) e = ground (arith, count_jobs-remove_at id i j js)

count_results-append :
    (id : ℕ) (rs : List HookResult) (r : HookResult)
    → count_results id (rs ++ r ∷ []) ≡ count_results id rs + bit (r.id == id)
unfolding count_results
count_results-append id [] r = omega arith
count_results-append id (x ∷ rs) r = omega (arith, count_results-append id rs r)

ready-push : (r : HookResult) (b : Bridge HookResult) → (push r b).ready ≡ b.ready ++ r ∷ []
unfolding push append wake swap signal
ready-push r b = ground arith

-- A job that is decided waits in the bridge instead.
pub decide-Sound :
    (i : ℕ) (dec : Decision) (s : World)
    → Sound [] s.worker
    → SoundAfter [] s.worker (decide i dec s).worker
unfolding decide
decide-Sound i dec s h = elim (Option-cases (get_elem? s.worker.jobs i)) [
  | inl e ↦ rw (e, decide) (record { sound = h; next_le = omega arith })
  | inr (j, e) ↦
      let w = s.worker in
      let r : HookResult = record { id = j.id; dec = dec } in
      let v : Worker = record w { jobs = remove_at i w.jobs; br = push r w.br } in
      rw (e, decide)
        (record {
          sound =
              carry [] w v
                (λ id. record {
                  found_eq = refl;
                  count_eq = refl;
                  tokens_eq = refl;
                  waits_eq = omega (
                    arith,
                    count_jobs-remove_at id i j w.jobs e,
                    ap (count_results id) (ready-push r w.br),
                    count_results-append id w.br.ready r,
                  );
                })
                (record { next_eq = refl; counts_le = λ id. omega arith }) h;
          next_le = omega arith;
        })
]

-- The fields of the overflow check are no matter of the invariant.
pub check_overflow-Sound :
    (ov : ℕ) (w : Worker) → Sound [] w → SoundAfter [] w (check_overflow ov w)
unfolding check_overflow
check_overflow-Sound ov w h =
    if-rule (SoundAfter [] w) (ov == w.last_overflow)
      (λ _. record { sound = h; next_le = omega arith })
      (λ _. record {
        sound =
            carry [] w _
              (λ id. record { found_eq = refl; count_eq = refl; tokens_eq = refl; waits_eq = refl })
              (record { next_eq = refl; counts_le = λ id. omega arith }) h;
        next_le = omega arith;
      })
