-- ===== src/Worker/Lifecycle/Rounds.antt =====
-- The invariant through `case opEventfd` and `case opTimeout` of flashrelay/worker.go, which are
-- about many connections in turn.
use flash_relay.Base.{
  ℕ, ◌<◌, ◌≡◌, ◌∙◌, refl, false, List, [], ◌∷◌, inl, inr, arith, if-rule, Option-cases, ltb, ◌==◌,
  ◌&&◌, ◌%◌,
}
use mathlib.Core.Path.{subst}
use flash_relay.Base.Words.{add64}
use flash_relay.Bridge.{clear, drain}
use flash_relay.Worker.State.{Limits, Conn, HookResult, Worker, read, timer}
use flash_relay.Worker.Ops
use flash_relay.Worker.Ops.{Op, op_code, ud, max_id}
use flash_relay.Worker.Conns.{find}
use flash_relay.Worker.Actions.{post, post_eventfd, post_timeout}
use flash_relay.Worker.Handlers.{on_eventfd}
use flash_relay.Worker.Handlers.Hook.{on_hook_result, on_hook_results}
use flash_relay.Worker.Loop.{sweep_one, sweep, on_timeout}
use flash_relay.Worker.Footprint.Decisions
use flash_relay.Worker.Lifecycle.{PhaseAt, deciding, count_results}
use flash_relay.Worker.Lifecycle.Hooked.{on_hook_result-InPhase, stray-rule}
use flash_relay.Worker.Lifecycle.Sound.{Rest, Sound, whole, Sound-Rest, bookkept, absent-InPhase}
use flash_relay.Worker.Lifecycle.Switch.{SoundHeld, case_of, sweep_one-Sound, post-Sound}

-- With a result reached, what is taken is one less for its connection only.
reached :
    (r : HookResult) (rest : List HookResult) (w : Worker) → Sound (r ∷ rest) w → Rest r.id rest w
unfolding count_results
reached r rest w h = record {
  unique = h.unique;
  others =
      λ id ne. record { phase = subst (PhaseAt_of id) (ground (arith, ne)) (h.phase id).phase };
  fresh = λ id beyond.
      let old = h.fresh id beyond in
      record { absent = old.absent; quiet = old.quiet; undecided = omega (arith, old.undecided) };
  no_zero = h.no_zero;
}
  where
    PhaseAt_of : ℕ → ℕ → Type 0
    PhaseAt_of id d = PhaseAt id d w

pub hook_result-Sound :
    (lim : Limits) (r : HookResult) (rest : List HookResult) (w : Worker)
    → w.next_id < max_id
    → Sound (r ∷ rest) w
    → SoundHeld rest w (on_hook_result lim r w)
unfolding on_hook_result
hook_result-Sound lim r rest w room h = elim (Option-cases (find r.id w.conns)) [
  | inl e ↦
      rw (e, on_hook_result)
        (stray-rule (SoundHeld rest w) r.dec.upstream_fd w (λ calls. record {
          sound =
              bookkept rest w w.tick w.accept_inflight w.cnt calls
                (whole r.id rest w (reached r rest w h) (absent-InPhase r.id rest w e));
          next_eq = refl;
        }))
  | inr (c, e) ↦
      case_of r.id rest w (reached r rest w h) room c _ e
        (λ R l. Decisions.of_hook_result r.id R l lim r w refl)
        (λ small. on_hook_result-InPhase lim r rest w small (h.unique r.id) (h.phase r.id))
]

hook_results-Sound :
    (lim : Limits) (rs : List HookResult) (w : Worker)
    → w.next_id < max_id
    → Sound rs w
    → SoundHeld [] w (on_hook_results lim rs w)
unfolding on_hook_results
hook_results-Sound lim [] w room h = record { sound = h; next_eq = refl }
hook_results-Sound lim (r ∷ rs) w room h =
    let one = hook_result-Sound lim r rs w room h in
    let rest =
      hook_results-Sound lim rs (on_hook_result lim r w) (omega (arith, one.next_eq)) one.sound in
    record { sound = rest.sound; next_eq = rest.next_eq ∙ one.next_eq }

-- The drain takes what is ready.
pub drained :
    (w : Worker)
    → Sound [] w
    → Sound w.br.ready (record w { br = record w.br { notified = false; ready = [] } })
drained w h = record {
  unique = h.unique;
  phase = λ id. record { phase = subst (λ d. PhaseAt id d w) (moved id) (h.phase id).phase };
  fresh = λ id beyond.
      let old = h.fresh id beyond in
      record {
        absent = old.absent;
        quiet = old.quiet;
        undecided = omega (arith, moved id, old.undecided);
      };
  no_zero = h.no_zero;
}
  where
    emptied : Worker
    emptied = record w { br = record w.br { notified = false; ready = [] } }

    moved : (id : ℕ) → deciding id [] w ≡ deciding id w.br.ready emptied
    moved id = unfold count_results in omega arith

pub on_eventfd-Sound :
    (lim : Limits) (w : Worker)
    → w.next_id < max_id
    → Sound [] w
    → SoundHeld [] w (on_eventfd lim w)
unfolding on_eventfd clear drain post_eventfd post
on_eventfd-Sound lim w room h =
    let r = read (ud 0 (op_code Ops.eventfd)) in
    let w1 = post r w in
    let h1 = post-Sound Ops.eventfd r [] w refl (λ t. refl) h in
    let w2 : Worker = record w1 { br = record w1.br { notified = false; ready = [] } } in
    let h2 : Sound w.br.ready w2 = drained w1 h1 in
    let done = hook_results-Sound lim w.br.ready w2 room h2 in
    record { sound = done.sound; next_eq = done.next_eq }

sweep-Sound :
    (lim : Limits) (cs : List Conn) (w : Worker)
    → w.next_id < max_id
    → Sound [] w
    → SoundHeld [] w (sweep lim cs w)
unfolding sweep
sweep-Sound lim [] w room h = record { sound = h; next_eq = refl }
sweep-Sound lim (c ∷ cs) w room h =
    let one = sweep_one-Sound c.id [] w (Sound-Rest c.id [] w h) room lim (h.phase c.id) in
    let rest = sweep-Sound lim cs (sweep_one lim c.id w) (omega (arith, one.next_eq)) one.sound in
    record { sound = rest.sound; next_eq = rest.next_eq ∙ one.next_eq }

pub on_timeout-Sound :
    (lim : Limits) (w : Worker)
    → w.next_id < max_id
    → Sound [] w
    → SoundHeld [] w (on_timeout lim w)
unfolding on_timeout post_timeout post
on_timeout-Sound lim w room h =
    let r = timer (ud 0 (op_code Ops.timeout)) in
    let w1 = post r w in
    let h1 = post-Sound Ops.timeout r [] w refl (λ t. refl) h in
    let w2 : Worker = record w1 { tick = add64 w1.tick 1 } in
    let h2 = bookkept [] w1 w2.tick w.accept_inflight w.cnt w.calls h1 in
    let done = sweep-Sound lim w2.conns w2 room h2 in
    if-rule (SoundHeld [] w) (ltb 0 lim.idle_ticks && w2.tick % 10 == 0)
      (λ _. record { sound = done.sound; next_eq = done.next_eq })
      (λ _. record { sound = h2; next_eq = refl })
