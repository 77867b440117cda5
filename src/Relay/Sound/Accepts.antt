-- ===== src/Relay/Sound/Accepts.antt =====
-- The invariant through the accepts of research/gate/cmd/relay-uring/main.go: `postAccept`, the top-up
-- of each listener, and `case opAccept`.
use flash_relay.Base.{
  ℕ, zero, suc, ◌+◌, ◌<◌, ◌≡◌, ◌∙◌, refl, ◌&&◌, List, [], ◌∷◌, arith, if-rule, ◌==◌, ltb, length,
  get_or, set, length-set, if◌then◌else◌,
}
use Prim.Native.Nat.{max}
use flash_relay.Base.Int.{ℤ, pos}
use flash_relay.Base.Sums.{tally, tally-cons}
use flash_relay.Relay.State.{RelayCfg, accept, Relay}
use flash_relay.Relay.Ops
use flash_relay.Relay.Actions.{tag, post, post_accept, per_ln}
use flash_relay.Relay.Loop.{top_up_one, top_up_from, top_up, accept_from}
use flash_relay.Relay.Acts.{accept_of}
use flash_relay.Relay.Sound.{Sound, Armed, moved}

pub tally-set :
    (xs : List ℕ) (k v : ℕ)
    → k < length xs
    → tally (λ (n : ℕ). n) (set xs k v) + get_or xs k 0 ≡ tally (λ (n : ℕ). n) xs + v
unfolding tally
tally-set [] k v h = absurd (omega arith)
tally-set (x ∷ xs) zero v h = omega arith
tally-set (x ∷ xs) (suc k) v h = omega (arith, tally-set xs k v)

pub get_or-set :
    (xs : List ℕ) (k j v : ℕ)
    → k < length xs
    → get_or (set xs k v) j 0 ≡ (if k == j then v else get_or xs j 0)
get_or-set [] k j v h = absurd (omega arith)
get_or-set (x ∷ xs) zero zero v h = refl
get_or-set (x ∷ xs) zero (suc j) v h = ground arith
get_or-set (x ∷ xs) (suc k) zero v h = ground arith
get_or-set (x ∷ xs) (suc k) (suc j) v h = ground (arith, get_or-set xs k j v)

pub lt-get_or : (xs : List ℕ) (k : ℕ) → 0 < get_or xs k 0 → k < length xs
lt-get_or [] k h = absurd (omega arith)
lt-get_or (x ∷ xs) zero h = omega arith
lt-get_or (x ∷ xs) (suc k) h = omega (arith, lt-get_or xs k)

-- What is not read of a worker may change, and a request that is about no connection may be posted.
pub arms-Sound :
    (cfg : RelayCfg) (w : Relay) (fd : ℤ) (k : ℕ) (inflight : List ℕ) (total : ℕ)
    → Sound cfg [] w
    → Sound cfg [] (record w {
      posted = accept fd (tag k Ops.accept) ∷ w.posted;
      accept_inflight = inflight;
      total_accepts = total;
    })
unfolding tally
arms-Sound cfg w fd k inflight total h = record {
  unique = h.unique;
  keyed = h.keyed;
  phase = λ id pos. moved cfg refl (ground arith) (ground arith) (ground arith) (h.phase id pos);
  fresh = λ id beyond.
      let old = h.fresh id beyond in
      record { absent = old.absent; no_relay = ground (arith, old.no_relay) };
  no_zero = h.no_zero;
  tidy = record { blanks = h.tidy.blanks };
}

-- The invariant, with the accepts.
pub record Ready (cfg : RelayCfg) (w : Relay) : Type 0 where
  pub sound : Sound cfg [] w
  pub armed : Armed cfg w

pub post_accept-Ready :
    (cfg : RelayCfg) (k : ℕ) (w : Relay)
    → k < length cfg.lns
    → length w.conns + w.total_accepts < max cfg.max_conns (length cfg.lns)
    → Ready cfg w
    → Ready cfg (post_accept cfg k w)
unfolding post_accept post
post_accept-Ready cfg k w some_ln room h =
    let a = h.armed in
    let within : k < length w.accept_inflight = omega (arith, a.listeners) in
    let n = get_or w.accept_inflight k 0 in
    let fd = get_or cfg.lns k (pos 0) in
    record {
      sound = arms-Sound cfg w fd k _ _ h.sound;
      armed = record {
        each = λ j.
            let all = tally-cons (accept_of j) (accept fd (tag k Ops.accept)) w.posted in
            ground (arith, a.each j, all, get_or-set w.accept_inflight k j (suc n) within);
        listeners = length-set w.accept_inflight k (suc n) ∙ a.listeners;
        sum = omega (arith, a.sum, tally-set w.accept_inflight k (suc n) within);
        room = omega arith;
      };
    }

top_up_one-Ready :
    (fuel : ℕ) (cfg : RelayCfg) (k : ℕ) (w : Relay)
    → k < length cfg.lns
    → Ready cfg w
    → Ready cfg (top_up_one fuel cfg k w) × ((top_up_one fuel cfg k w).next_id ≡ w.next_id)
unfolding top_up_one
top_up_one-Ready zero cfg k w some_ln h = (h, refl)
top_up_one-Ready (suc fuel) cfg k w some_ln h =
    if-rule (λ v. Ready cfg v × (v.next_id ≡ w.next_id))
      (ltb (get_or w.accept_inflight k 0) (per_ln cfg)
        && ltb (length w.conns + w.total_accepts) cfg.max_conns)
      (λ below.
        let one = post_accept-Ready cfg k w some_ln (ground (arith, below)) h in
        let more = top_up_one-Ready fuel cfg k (post_accept cfg k w) some_ln one in
        (more.0, more.1 ∙ unfold post_accept post in refl))
      (λ _. (h, refl))

top_up_from-Ready :
    (cfg : RelayCfg) (k : ℕ) (lns : List ℤ) (w : Relay)
    → k + length lns ≡ length cfg.lns
    → Ready cfg w
    → Ready cfg (top_up_from cfg k lns w) × ((top_up_from cfg k lns w).next_id ≡ w.next_id)
unfolding top_up_from
top_up_from-Ready cfg k [] w e h = (h, refl)
top_up_from-Ready cfg k (ln ∷ lns) w e h =
    let one = top_up_one-Ready (per_ln cfg) cfg k w (omega arith) h in
    let rest =
      top_up_from-Ready cfg (suc k) lns (top_up_one (per_ln cfg) cfg k w) (omega arith) one.0 in
    (rest.0, rest.1 ∙ one.1)

pub top_up-Ready :
    (cfg : RelayCfg) (w : Relay)
    → Ready cfg w
    → Ready cfg (top_up cfg w) × ((top_up cfg w).next_id ≡ w.next_id)
unfolding top_up
top_up-Ready cfg w h = top_up_from-Ready cfg 0 cfg.lns w (omega arith) h

-- The first accept of each listener.
pub accept_from-Ready :
    (cfg : RelayCfg) (k : ℕ) (lns : List ℤ) (w : Relay)
    → k + length lns ≡ length cfg.lns
    → length w.conns + w.total_accepts ≡ k
    → Ready cfg w
    → Ready cfg (accept_from cfg k lns w)
unfolding accept_from
accept_from-Ready cfg k [] w e n h = h
accept_from-Ready cfg k (ln ∷ lns) w e n h =
    accept_from-Ready cfg (suc k) lns (post_accept cfg k w) (omega arith)
      (unfold post_accept post in omega arith)
      (post_accept-Ready cfg k w (omega arith) (omega arith) h)
