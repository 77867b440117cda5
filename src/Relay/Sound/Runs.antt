-- ===== src/Relay/Sound/Runs.antt =====
-- The invariant through each event of a worker of research/gate/cmd/relay-uring/main.go.
use flash_relay.Base.{
  ℕ, ◌+◌, ◌≤◌, ◌<◌, ◌≡◌, refl, ap, inl, inr, Bool, List, [], ◌∷◌, ◌++◌, Option, some, arith,
  Option-cases, get_elem?, length,
}
use flash_relay.Base.Int.{ℤ}
use flash_relay.Base.Sums.{tally, remove_at, tally-remove_at, tally-append}
use flash_relay.Worker.Ops.{ud, max_id}
use flash_relay.Bridge.{Bridge, push, append, wake, swap, signal}
use flash_relay.Relay.State.{Pipe, HookResult, RelayCfg, Relay}
use flash_relay.Relay.Ops.{op_code}
use flash_relay.Relay.Loop.{Completion}
use flash_relay.Relay.Kernel.{
  Event, completes, decides, tops_up, tag_of, deliver, complete, decide, step, run,
}
use flash_relay.Relay.Acts.{job_of, result_of}
use flash_relay.Relay.Sound.{Calm-Armed, waits, moved}
use flash_relay.Relay.Sound.Accepts.{Ready, top_up-Ready}
use flash_relay.Relay.Sound.Accepted.{Calm-Taken}
use flash_relay.Relay.Sound.Arrivals.{
  left-Rest, left-Arrived, left-Taken, left-Armed, beyond-service, deliver-Received,
}
use flash_relay.Relay.Sound.Dispatch.{handle-op, dispatch}

-- A completion keeps the invariant and the accepts.
complete-Ready :
    (cfg : RelayCfg) (i : ℕ) (res : ℤ) (bytes : List ℕ) (p q : Option Pipe) (s : Relay)
    → length cfg.lns ≤ max_id
    → s.next_id + 1 < max_id
    → Ready cfg s
    → Ready cfg (complete cfg i res bytes p q s)
      × ((complete cfg i res bytes p q s).next_id ≤ s.next_id + 1)
unfolding complete
complete-Ready cfg i res bytes p q s few small h = elim (Option-cases (get_elem? s.posted i)) [
  | inl e ↦ rw (e, complete) (h, omega arith)
  | inr (r, e) ↦
      let t = tag_of r in
      let u : Relay = record s { posted = remove_at i s.posted } in
      let v = deliver t bytes u in
      let c : Completion = record {
        user_data = ud t.id (op_code t.op);
        res = res;
        first_pipe = p;
        second_pipe = q;
      } in
      let got =
        deliver-Received cfg t bytes u (left-Rest cfg i r s e h.sound)
          (left-Arrived cfg i r s e h.sound) in
      let next = got.calm.next_eq in
      let done =
        dispatch cfg t.id c v (omega (arith, next)) few t.op got.rest got.arrived
          (λ no_accept.
            Calm-Armed cfg u v got.calm (left-Armed cfg i r s e h.sound h.armed no_accept))
          (λ is_accept.
            Calm-Taken cfg t.id u v got.calm (left-Taken cfg i r s e h.sound h.armed is_accept))
          (λ far. beyond-service cfg i r s e h.sound (omega (arith, next))) in
      rw (e, complete, handle-op cfg t.id t.op c v refl)
        (record { sound = done.sound; armed = done.armed }, omega (arith, done.next_le, next))
]

ready-push : (r : HookResult) (b : Bridge HookResult) → (push r b).ready ≡ b.ready ++ r ∷ []
unfolding push append wake swap signal
ready-push r b = ground arith

-- A job that is decided waits in the bridge instead.
decide-Ready :
    (cfg : RelayCfg) (i : ℕ) (fd : ℤ) (ok : Bool) (w : Relay)
    → Ready cfg w
    → Ready cfg (decide i fd ok w) × ((decide i fd ok w).next_id ≤ w.next_id + 1)
unfolding decide
decide-Ready cfg i fd ok w h = elim (Option-cases (get_elem? w.jobs i)) [
  | inl e ↦ rw (e, decide) (h, omega arith)
  | inr (j, e) ↦
      let s = h.sound in
      let a = h.armed in
      rw (e, decide)
        (
          record {
            sound = record {
              unique = s.unique;
              keyed = s.keyed;
              phase = λ id pos. moved cfg refl (handed j e id) refl refl (s.phase id pos);
              fresh = λ id beyond.
                  let old = s.fresh id beyond in
                  record { absent = old.absent; no_relay = old.no_relay };
              no_zero = s.no_zero;
              tidy = record { blanks = s.tidy.blanks };
            };
            armed = record { each = a.each; listeners = a.listeners; sum = a.sum; room = a.room };
          },
          omega arith,
        )
]
  where
    handed :
        (j : ℕ)
        → get_elem? w.jobs i ≡ some j
        → (id : ℕ)
        → waits id [] w
          ≡ waits id [] (record w {
            jobs = remove_at i w.jobs;
            br = push (record { id = j; upstream_fd = fd; ok = ok }) w.br;
          })
    handed j e id =
        let r : HookResult = record { id = j; upstream_fd = fd; ok = ok } in
        let more = ap (tally (result_of id)) (ready-push r w.br) in
        let joined = tally-append (result_of id) w.br.ready (r ∷ []) in
        let gone = tally-remove_at (job_of id) i j w.jobs e in
        unfold tally in omega (arith, more, joined, gone)

step-Ready :
    (cfg : RelayCfg) (e : Event) (w : Relay)
    → length cfg.lns ≤ max_id
    → w.next_id + 1 < max_id
    → Ready cfg w
    → Ready cfg (step cfg e w) × ((step cfg e w).next_id ≤ w.next_id + 1)
unfolding step
step-Ready cfg (completes i res bytes p q) w few small h =
    complete-Ready cfg i res bytes p q w few small h
step-Ready cfg (decides i fd ok) w few small h = decide-Ready cfg i fd ok w h
step-Ready cfg tops_up w few small h = let up = top_up-Ready cfg w h in (up.0, omega (arith, up.1))

pub run-Ready :
    (cfg : RelayCfg) (es : List Event) (w : Relay)
    → length cfg.lns ≤ max_id
    → w.next_id + length es < max_id
    → Ready cfg w
    → Ready cfg (run cfg es w)
unfolding run
run-Ready cfg [] w few room h = h
run-Ready cfg (e ∷ es) w few room h =
    let one = step-Ready cfg e w few (omega arith) h in
    run-Ready cfg es (step cfg e w) few (omega (arith, one.1)) one.0
