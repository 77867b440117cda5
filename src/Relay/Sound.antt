-- ===== src/Relay/Sound.antt =====
-- The invariant of a worker of research/gate/cmd/relay-uring/main.go: the phase of every connection,
-- the accepts in flight of every listener, the cap, and a freelist of reset structs.
pub mod Found
pub mod Switch
pub mod Rounds
pub mod Accepts
pub mod Admits
pub mod Accepted
pub mod Arrivals
pub mod Dispatch
pub mod Runs
pub mod Always
use flash_relay.Base.{
  ℕ, ◌+◌, ◌≤◌, ◌<◌, ◌≡◌, ◌∙◌, refl, sym, ap, inl, inr, true, false, List, Option, none, some, arith,
  ◌==◌, Bool-cases, get_or, length, Option-cases, ltb,
}
use Prim.Native.Nat.{max}
use mathlib.Core.Path.{subst}
use flash_relay.Base.Int.{ℤ}
use flash_relay.Base.Sums.{tally}
use flash_relay.Base.Table.{lookup, entries, lookup-eq_none}
use flash_relay.Relay.State.{Conn, HookResult, RelayCfg, Relay}
use flash_relay.Relay.Acts.{Acts, Tidy, pending, relaying, closing, accept_of, result_of}
use flash_relay.Relay.Phase.{Phase}
use flash_relay.Relay.Phase.Landing.{Lands}

-- With the decisions that the drain has taken and not reached yet.
abbrev pub waits : ℕ → List HookResult → Relay → ℕ
waits id taken w = pending id w + tally (result_of id) taken

abbrev pub PhaseAt : RelayCfg → ℕ → List HookResult → Relay → Type 0
PhaseAt cfg id taken w =
    Phase cfg (lookup id w.conns) (waits id taken w) (relaying id w) (closing id w)

-- An id that is still to be given out.
pub record IsFresh (id : ℕ) (w : Relay) : Type 0 where
  pub absent : entries id w.conns ≡ 0
  pub no_relay : relaying id w ≡ 0

-- The accepts: `acceptInflight[k]` is the number in flight for listener k, `totalAccepts` is the sum,
-- and with the connections they stay within the cap, or within the first accept of each listener.
pub record Armed (cfg : RelayCfg) (w : Relay) : Type 0 where
  pub each : (k : ℕ) → tally (accept_of k) w.posted ≡ get_or w.accept_inflight k 0
  pub listeners : length w.accept_inflight ≡ length cfg.lns
  pub sum : w.total_accepts ≡ tally (λ (n : ℕ). n) w.accept_inflight
  pub room : length w.conns + w.total_accepts ≤ max cfg.max_conns (length cfg.lns)

-- What a case may rely on for the connections that it is not about.
pub record Rest (cfg : RelayCfg) (cid : ℕ) (taken : List HookResult) (w : Relay) : Type 0 where
  pub unique : (id : ℕ) → entries id w.conns ≤ 1
  pub keyed : (id : ℕ) (c : Conn) → lookup id w.conns ≡ some c → c.id ≡ id
  pub phase : (id : ℕ) → (cid == id) ≡ false → 0 < id → PhaseAt cfg id taken w
  pub fresh : (id : ℕ) → w.next_id < id → IsFresh id w
  pub no_zero : entries 0 w.conns ≡ 0
  pub tidy : Tidy cfg w

pub record Sound (cfg : RelayCfg) (taken : List HookResult) (w : Relay) : Type 0 where
  pub unique : (id : ℕ) → entries id w.conns ≤ 1
  pub keyed : (id : ℕ) (c : Conn) → lookup id w.conns ≡ some c → c.id ≡ id
  pub phase : (id : ℕ) → 0 < id → PhaseAt cfg id taken w
  pub fresh : (id : ℕ) → w.next_id < id → IsFresh id w
  pub no_zero : entries 0 w.conns ≡ 0
  pub tidy : Tidy cfg w

-- What a case leaves alone that is about no accept: the ids given out and all that counts accepts.
pub record Calm (u v : Relay) : Type 0 where
  pub next_eq : v.next_id ≡ u.next_id
  pub inflight_eq : v.accept_inflight ≡ u.accept_inflight
  pub total_eq : v.total_accepts ≡ u.total_accepts
  pub armed_eq : (k : ℕ) → tally (accept_of k) v.posted ≡ tally (accept_of k) u.posted
  pub fewer : length v.conns ≤ length u.conns

pub Calm-refl : (w : Relay) → Calm w w
Calm-refl w = record {
  next_eq = refl;
  inflight_eq = refl;
  total_eq = refl;
  armed_eq = λ k. refl;
  fewer = omega arith;
}

pub Calm-trans : (u v w : Relay) → Calm u v → Calm v w → Calm u w
Calm-trans u v w h k = record {
  next_eq = k.next_eq ∙ h.next_eq;
  inflight_eq = k.inflight_eq ∙ h.inflight_eq;
  total_eq = k.total_eq ∙ h.total_eq;
  armed_eq = λ i. k.armed_eq i ∙ h.armed_eq i;
  fewer = omega (arith, h.fewer, k.fewer);
}

pub Calm-Armed : (cfg : RelayCfg) (u v : Relay) → Calm u v → Armed cfg u → Armed cfg v
Calm-Armed cfg u v h a = record {
  each = λ k. h.armed_eq k ∙ a.each k ∙ ap (λ xs. get_or xs k 0) (sym h.inflight_eq);
  listeners = ap length h.inflight_eq ∙ a.listeners;
  sum = h.total_eq ∙ a.sum ∙ ap (tally (λ (n : ℕ). n)) (sym h.inflight_eq);
  room = omega (arith, h.total_eq, h.fewer, a.room);
}

pub record SoundHeld (cfg : RelayCfg) (taken : List HookResult) (u v : Relay) : Type 0 where
  pub sound : Sound cfg taken v
  pub calm : Calm u v

pub stays :
    (cfg : RelayCfg) (taken : List HookResult) (w : Relay)
    → Sound cfg taken w
    → SoundHeld cfg taken w w
stays cfg taken w h = record { sound = h; calm = Calm-refl w }

same_id : (a b : ℕ) → (a == b) ≡ true → a ≡ b
same_id a b h = ground arith

module _ (cfg : RelayCfg) (cid : ℕ) (taken : List HookResult) (w : Relay) where
  pub whole : Rest cfg cid taken w → (0 < cid → PhaseAt cfg cid taken w) → Sound cfg taken w
  whole h own = record {
    unique = h.unique;
    keyed = h.keyed;
    phase = λ id pos. elim (Bool-cases (cid == id)) [
      | inl e ↦ subst (λ i. PhaseAt cfg i taken w) (same_id cid id e) (own (ground (arith, e)))
      | inr e ↦ h.phase id e pos
    ];
    fresh = h.fresh;
    no_zero = h.no_zero;
    tidy = h.tidy;
  }

  pub Sound-Rest : Sound cfg taken w → Rest cfg cid taken w
  Sound-Rest h = record {
    unique = h.unique;
    keyed = h.keyed;
    phase = λ id _ pos. h.phase id pos;
    fresh = h.fresh;
    no_zero = h.no_zero;
    tidy = h.tidy;
  }

  -- A connection that is in the map was given its id, which is not 0.
  pub known : (c : Conn) → Rest cfg cid taken w → lookup cid w.conns ≡ some c → cid ≤ w.next_id
  known c h e = elim (Bool-cases (ltb w.next_id cid)) [
    | inl beyond ↦
        let gone = lookup-eq_none cid w.conns (h.fresh cid (ground (arith, beyond))).absent in
        absurd (cc (e, gone))
    | inr within ↦ ground (arith, within)
  ]

pub moved :
    (cfg : RelayCfg) {o o' : Option Conn} {x x' y y' z z' : ℕ}
    → o ≡ o'
    → x ≡ x'
    → y ≡ y'
    → z ≡ z'
    → Phase cfg o x y z
    → Phase cfg o' x' y' z'
moved cfg {o} {o'} {x} {x'} {y} {y'} {z} {z'} e f g i h =
    subst (λ t. Phase cfg o' x' y' t) i
      (subst (λ t. Phase cfg o' x' t z) g
        (subst (λ t. Phase cfg o' t y z) f (subst (λ t. Phase cfg t x y z) e h)))

-- What a case leaves of the rest.
pub acts-Rest :
    (cfg : RelayCfg) (cid : ℕ) (taken : List HookResult) (u v : Relay) (o : Option Conn) (s r k : ℕ)
    → cid ≤ u.next_id
    → Rest cfg cid taken u
    → Acts cfg cid u v o s r k
    → Rest cfg cid taken v
acts-Rest cfg cid taken u v o s r k given h a = record {
  unique = λ id. omega (arith, h.unique id, a.entries_le id);
  keyed = λ id c e. elim (Bool-cases (cid == id)) [
    | inl same ↦
        let i = same_id cid id same in
        a.named c (sym a.own ∙ subst (λ j. lookup j v.conns ≡ some c) (sym i) e) ∙ i
    | inr ne ↦ h.keyed id c (sym (a.others id ne) ∙ e)
  ];
  phase = λ id ne pos.
      let same_waits : waits id taken u ≡ waits id taken v = omega (arith, a.pending_eq id ne) in
      moved cfg (sym (a.others id ne)) same_waits (sym (a.relaying_eq id ne))
        (sym (a.closing_eq id ne)) (h.phase id ne pos);
  fresh = λ id beyond.
      let old = h.fresh id (omega (arith, a.next_eq)) in
      let ne : (cid == id) ≡ false = ground (arith, a.next_eq) in
      record {
        absent = omega (arith, a.entries_le id, old.absent);
        no_relay = a.relaying_eq id ne ∙ old.no_relay;
      };
  no_zero = omega (arith, a.entries_le 0, h.no_zero);
  tidy = a.tidy h.tidy;
}

-- A case that lands its connection in phase keeps the invariant.
pub lands-Sound :
    (cfg : RelayCfg) (cid : ℕ) (taken : List HookResult) (u v : Relay)
    → cid ≤ u.next_id
    → Rest cfg cid taken u
    → Lands cfg cid u v (waits cid taken u) (relaying cid u) (closing cid u)
    → SoundHeld cfg taken u v
lands-Sound cfg cid taken u v given h n =
    let a = n.acts in
    let done =
      whole cfg cid taken v
        (acts-Rest cfg cid taken u v n.entry n.more_pending n.more_relaying n.more_closing given h
          a)
        (λ _.
          let more : waits cid taken v ≡ waits cid taken u + n.more_pending =
            omega (arith, a.own_pending) in
          moved cfg (sym a.own) (sym more) (sym a.own_relaying) (sym a.own_closing) n.phase) in
    record {
      sound = done;
      calm = record {
        next_eq = a.next_eq;
        inflight_eq = a.inflight_eq;
        total_eq = a.total_eq;
        armed_eq = a.armed_eq;
        fewer = a.fewer;
      };
    }
