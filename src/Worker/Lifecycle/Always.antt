-- ===== src/Worker/Lifecycle/Always.antt =====
-- Every run of a worker of flashrelay/worker.go keeps its connections in phase, and none is stuck.
use flash_relay.Base.{
  ℕ, zero, suc, ◌+◌, ◌<◌, ◌≡◌, refl, List, [], ◌∷◌, some, inl, inr, arith, if-rule, ltb, ◌&&◌,
  length,
}
use mathlib.Core.Path.{subst}
use flash_relay.Worker.State.{Limits, Conn, Worker, accept, read, timer}
use flash_relay.Worker.Ops
use flash_relay.Worker.Ops.{op_code, ud, max_id}
use flash_relay.Worker.Conns.{find, count_id}
use flash_relay.Worker.Actions.{post, post_accept, post_eventfd, post_timeout}
use flash_relay.Worker.Loop.{top_up, start, locals}
use flash_relay.Worker.Kernel.{
  World, Event, completes, decides, overflows, tops_up, step, run, boot,
}
use flash_relay.Worker.Tokens.{Tokens, tokens}
use flash_relay.Worker.Lifecycle.{Phase, deciding, count_jobs, count_results}
use flash_relay.Worker.Lifecycle.Sound.{load, Sound, bookkept}
use flash_relay.Worker.Lifecycle.Switch.{SoundAfter, post-Sound}
use flash_relay.Worker.Lifecycle.Runs.{complete-Sound, decide-Sound, check_overflow-Sound}

top_up-Sound :
    (fuel : ℕ) (lim : Limits) (w : Worker) → Sound [] w → SoundAfter [] w (top_up fuel lim w)
unfolding top_up post_accept post
top_up-Sound zero lim w h = record { sound = h; next_le = omega arith }
top_up-Sound (suc fuel) lim w h =
    let r = accept (ud 0 (op_code Ops.accept)) in
    let w1 = post r w in
    let h1 = post-Sound Ops.accept r [] w refl (λ t. refl) h in
    let w2 : Worker = record w1 { accept_inflight = suc w.accept_inflight } in
    let h2 = bookkept [] w1 w.tick w2.accept_inflight w.cnt w.calls h1 in
    let more = top_up-Sound fuel lim w2 h2 in
    if-rule (SoundAfter [] w)
      (ltb w.accept_inflight lim.accept_batch
        && ltb (length w.conns + w.accept_inflight) lim.max_conns)
      (λ _. record { sound = more.sound; next_le = more.next_le })
      (λ _. record { sound = h; next_le = omega arith })

pub step-Sound :
    (lim : Limits) (e : Event) (s : World)
    → Sound [] s.worker
    → suc s.worker.next_id < max_id
    → SoundAfter [] s.worker (step lim e s).worker
unfolding step
step-Sound lim (completes i res bytes) s h room = complete-Sound lim i res bytes s h room
step-Sound lim (decides i dec) s h room = decide-Sound i dec s h
step-Sound lim (overflows ov) s h room = check_overflow-Sound ov s.worker h
step-Sound lim tops_up s h room = top_up-Sound lim.accept_batch lim s.worker h

run-Sound :
    (lim : Limits) (es : List Event) (s : World)
    → Sound [] s.worker
    → s.worker.next_id + length es < max_id
    → Sound [] (run lim es s).worker
unfolding run
run-Sound lim [] s h room = h
run-Sound lim (e ∷ es) s h room =
    let one = step-Sound lim e s h (omega arith) in
    run-Sound lim es (step lim e s) one.sound (omega (arith, one.next_le))

locals-Sound : Sound [] locals
unfolding find count_id tokens count_jobs count_results
locals-Sound = record {
  unique = λ id. omega arith;
  phase = λ id. record { phase = tt };
  fresh = λ id beyond. record { absent = refl; quiet = refl; undecided = refl };
  no_zero = refl;
}

pub start-Sound : Sound [] start
unfolding start post_timeout post_eventfd post
start-Sound =
    let r = read (ud 0 (op_code Ops.eventfd)) in
    let t = timer (ud 0 (op_code Ops.timeout)) in
    post-Sound Ops.timeout t [] (post r locals) refl (λ x. refl)
      (post-Sound Ops.eventfd r [] locals refl (λ x. refl) locals-Sound)

-- Whatever the kernel and the hooks do in fewer than 2^56 events, ids stand once, no id that is
-- still to be given out has anything outstanding, and every connection is in phase: an open one has
-- exactly one request or decision outstanding until the relay starts and then one request in each
-- direction up to its end of file, and one that is closing has its closes in flight, one at least, and
-- is charged to a counter already or, as its relay has started, due to be counted Completed.
pub always-Sound :
    (lim : Limits) (es : List Event) → length es < max_id → Sound [] (run lim es boot).worker
always-Sound lim es few =
    run-Sound lim es boot start-Sound (unfold start post_timeout post_eventfd post in omega arith)

outstanding : (c : Conn) (t : Tokens) (d : ℕ) → Phase (some c) t d → 0 < load t + d
outstanding c t d (inl p) = let o = p.1 in ground arith
outstanding c t d (inr p) = let o = p.1 in omega (arith, o.closes, o.some_left)

-- Whatever the kernel and the hooks do in fewer than 2^56 events, no connection is stuck: each that
-- is in the map has a request in flight or a decision outstanding.
pub never_stuck :
    (lim : Limits) (es : List Event) (id : ℕ) (c : Conn)
    → length es < max_id
    → find id (run lim es boot).worker.conns ≡ some c
    → 0 < load (tokens id (run lim es boot).worker.posted) + deciding id [] (run lim es boot).worker
never_stuck lim es id c few e =
    let w = (run lim es boot).worker in
    outstanding c (tokens id w.posted) (deciding id [] w) (
      subst (λ o. Phase o (tokens id w.posted) (deciding id [] w)) e
        ((always-Sound lim es few).phase id).phase)
