-- ===== src/Relay/Sound/Rounds.antt =====
-- The invariant through `case opEventfd` and `case opTimeout` of research/gate/cmd/relay-uring/main.go.
use flash_relay.Base.{
  ◌+◌, ◌≡◌, refl, inl, inr, false, ◌&&◌, List, [], ◌∷◌, some, arith, if-rule, Option-cases, ==_refl,
}
use flash_relay.Base.Int.{is_pos}
use flash_relay.Base.Sums.{tally}
use flash_relay.Base.Table.{lookup}
use flash_relay.Bridge.{clear, drain}
use flash_relay.Relay.State.{HookResult, RelayCfg, Request, read, timer, Syscall, close_fd, Relay}
use flash_relay.Relay.Ops
use flash_relay.Relay.Actions.{tag, post, syscall, post_eventfd, post_timeout}
use flash_relay.Relay.Cases.{on_hook_result, on_hook_results, on_eventfd}
use flash_relay.Relay.Kernel.{tag_of}
use flash_relay.Relay.Acts.{class, service, accept_bit, relaying, closing}
use flash_relay.Relay.Phase.{Phase}
use flash_relay.Relay.Phase.Starts.{decided-Lands}
use flash_relay.Relay.Sound.{Rest, Sound, SoundHeld, Calm-trans, waits, whole, moved, stays}
use flash_relay.Relay.Sound.Found.{Phase-IsStarting, case_of, positive}

-- System calls are no matter of the invariant.
called :
    (cfg : RelayCfg) (taken : List HookResult) (w : Relay) (calls : List Syscall)
    → Sound cfg taken w
    → SoundHeld cfg taken w (record w { calls = calls })
called cfg taken w calls h = record {
  sound = record {
    unique = h.unique;
    keyed = h.keyed;
    phase = h.phase;
    fresh = λ id beyond.
        let old = h.fresh id beyond in record { absent = old.absent; no_relay = old.no_relay };
    no_zero = h.no_zero;
    tidy = record { blanks = h.tidy.blanks };
  };
  calm = record {
    next_eq = refl;
    inflight_eq = refl;
    total_eq = refl;
    armed_eq = λ k. refl;
    fewer = omega arith;
  };
}

-- A request that is about no connection and no listener.
pub served :
    (cfg : RelayCfg) (taken : List HookResult) (w : Relay) (r : Request)
    → class (tag_of r).op ≡ service
    → accept_bit (tag_of r).op ≡ 0
    → Sound cfg taken w
    → SoundHeld cfg taken w (post r w)
unfolding post tally
served cfg taken w r is_service no_accept h = record {
  sound = record {
    unique = h.unique;
    keyed = h.keyed;
    phase = λ id pos.
        moved cfg refl (rw is_service (ground arith)) (rw is_service (ground arith))
          (rw is_service (ground arith)) (h.phase id pos);
    fresh = λ id beyond.
        let old = h.fresh id beyond in
        record { absent = old.absent; no_relay = rw is_service (ground (arith, old.no_relay)) };
    no_zero = h.no_zero;
    tidy = record { blanks = h.tidy.blanks };
  };
  calm = record {
    next_eq = refl;
    inflight_eq = refl;
    total_eq = refl;
    armed_eq = λ k. ground (arith, no_accept);
    fewer = omega arith;
  };
}

-- With a decision reached, what is taken is one less for its connection only.
reached :
    (cfg : RelayCfg) (r : HookResult) (rest : List HookResult) (w : Relay)
    → Sound cfg (r ∷ rest) w
    → Rest cfg r.id rest w
unfolding tally
reached cfg r rest w h = record {
  unique = h.unique;
  keyed = h.keyed;
  phase = λ id ne pos. moved cfg refl (ground (arith, ne)) refl refl (h.phase id pos);
  fresh = h.fresh;
  no_zero = h.no_zero;
  tidy = h.tidy;
}

own_wait :
    (r : HookResult) (rest : List HookResult) (w : Relay)
    → waits r.id (r ∷ rest) w ≡ waits r.id rest w + 1
unfolding tally
own_wait r rest w = ground (arith, ==_refl r.id)

hook_result-Sound :
    (cfg : RelayCfg) (r : HookResult) (rest : List HookResult) (w : Relay)
    → Sound cfg (r ∷ rest) w
    → SoundHeld cfg rest w (on_hook_result cfg r w)
unfolding on_hook_result syscall
hook_result-Sound cfg r rest w h =
    let left = reached cfg r rest w h in
    elim (Option-cases (lookup r.id w.conns)) [
      | inl e ↦
          let quiet = whole cfg r.id rest w left (λ pos.
            let was = moved cfg e (own_wait r rest w) refl refl (h.phase r.id pos) in
            absurd (omega (arith, was.0))) in
          rw (e, on_hook_result)
            (if-rule (SoundHeld cfg rest w) (r.ok && is_pos r.upstream_fd)
              (λ _. called cfg rest w (close_fd r.upstream_fd ∷ w.calls) quiet)
              (λ _. stays cfg rest w quiet))
      | inr (c, e) ↦
          let p = waits r.id rest w in
          let l = relaying r.id w in
          let k = closing r.id w in
          let was : Phase cfg (some c) (p + 1) l k =
            moved cfg e (own_wait r rest w) refl refl
              (h.phase r.id (positive cfg r.id rest w left c e)) in
          rw (e, on_hook_result)
            (case_of cfg r.id rest w left c _ e (λ found once.
              decided-Lands cfg c w p l k found once (Phase-IsStarting cfg c p l k was) r))
    ]

hook_results-Sound :
    (cfg : RelayCfg) (rs : List HookResult) (w : Relay)
    → Sound cfg rs w
    → SoundHeld cfg [] w (on_hook_results cfg rs w)
unfolding on_hook_results
hook_results-Sound cfg [] w h = stays cfg [] w h
hook_results-Sound cfg (r ∷ rs) w h =
    let v = on_hook_result cfg r w in
    let one = hook_result-Sound cfg r rs w h in
    let rest = hook_results-Sound cfg rs v one.sound in
    record { sound = rest.sound; calm = Calm-trans w v _ one.calm rest.calm }

-- The drain takes what is ready.
drained :
    (cfg : RelayCfg) (w : Relay)
    → Sound cfg [] w
    → Sound cfg w.br.ready (record w { br = record w.br { notified = false; ready = [] } })
unfolding tally
drained cfg w h = record {
  unique = h.unique;
  keyed = h.keyed;
  phase = λ id pos. moved cfg refl (omega arith) refl refl (h.phase id pos);
  fresh = λ id beyond.
      let old = h.fresh id beyond in record { absent = old.absent; no_relay = old.no_relay };
  no_zero = h.no_zero;
  tidy = record { blanks = h.tidy.blanks };
}

pub on_eventfd-Sound :
    (cfg : RelayCfg) (w : Relay) → Sound cfg [] w → SoundHeld cfg [] w (on_eventfd cfg w)
unfolding on_eventfd clear drain post_eventfd post
on_eventfd-Sound cfg w h =
    let w1 = post (read (tag 0 Ops.eventfd)) w in
    let first = served cfg [] w (read (tag 0 Ops.eventfd)) refl refl h in
    let w2 : Relay = record w1 { br = record w1.br { notified = false; ready = [] } } in
    let rest = hook_results-Sound cfg w.br.ready w2 (drained cfg w1 first.sound) in
    record {
      sound = rest.sound;
      calm = Calm-trans w w1 _ first.calm (
          Calm-trans w1 w2 _
            (record {
              next_eq = refl;
              inflight_eq = refl;
              total_eq = refl;
              armed_eq = λ k. refl;
              fewer = omega arith;
            })
            rest.calm);
    }

pub post_timeout-Sound :
    (cfg : RelayCfg) (w : Relay) → Sound cfg [] w → SoundHeld cfg [] w (post_timeout w)
unfolding post_timeout
post_timeout-Sound cfg w h = served cfg [] w (timer (tag 0 Ops.timeout)) refl refl h
