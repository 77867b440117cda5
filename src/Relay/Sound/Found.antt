-- ===== src/Relay/Sound/Found.antt =====
-- The invariant through a case of research/gate/cmd/relay-uring/main.go that finds its connection: by
-- the phase that it is in.
use flash_relay.Base.{
  ℕ, ◌+◌, ◌≤◌, ◌<◌, ◌≡◌, ◌∙◌, refl, sym, ap, inl, inr, false, List, some, arith, if-rule,
  Option-cases, Bool-cases, ◌==◌,
}
use mathlib.Core.Path.{subst}
use flash_relay.Base.Table.{lookup, entries, lookup-eq_none}
use flash_relay.Relay.State.{Conn, HookResult, RelayCfg, Relay}
use flash_relay.Relay.Ops.{Op}
use flash_relay.Relay.Cases.{with_conn, on_close, close_found}
use flash_relay.Relay.Duplex.{with_open}
use flash_relay.Relay.Acts.{class, start_bit, relay_bit, close_bit, relaying, closing}
use flash_relay.Relay.Phase.{Phase, IsStarting, IsRelaying, IsShut}
use flash_relay.Relay.Phase.Landing.{Lands, close_found-Lands}
use flash_relay.Relay.Sound.{
  Rest, SoundHeld, stays, PhaseAt, waits, whole, moved, known, lands-Sound,
}

pub Phase-IsStarting :
    (cfg : RelayCfg) (c : Conn) (p l k : ℕ)
    → Phase cfg (some c) (p + 1) l k
    → IsStarting c (p + 1) l k
Phase-IsStarting cfg c p l k (inl h) = h
Phase-IsStarting cfg c p l k (inr (inl h)) = absurd (omega (arith, h.no_pending))
Phase-IsStarting cfg c p l k (inr (inr h)) = absurd (omega (arith, h.no_pending))

Phase-IsRelaying :
    (cfg : RelayCfg) (c : Conn) (p l k : ℕ)
    → c.closing ≡ false
    → Phase cfg (some c) p (l + 1) k
    → IsRelaying cfg c p k
Phase-IsRelaying cfg c p l k going (inl h) = absurd (omega (arith, h.no_relay))
Phase-IsRelaying cfg c p l k going (inr (inl h)) = h
Phase-IsRelaying cfg c p l k going (inr (inr h)) = absurd (cc (going, h.gone))

-- A request of the relay that is left over does not matter.
stale :
    (cfg : RelayCfg) (c : Conn) (p l k : ℕ)
    → Phase cfg (some c) p (l + 1) k
    → Phase cfg (some c) p l k
stale cfg c p l k (inl h) = absurd (omega (arith, h.no_relay))
stale cfg c p l k (inr (inl h)) = inr (inl h)
stale cfg c p l k (inr (inr h)) = inr (
    inr (record {
      gone = h.gone;
      no_pending = h.no_pending;
      closes = h.closes;
      some_left = h.some_left;
      plain = λ d. absurd (omega (arith, h.plain d));
    }))

Phase-IsShut :
    (cfg : RelayCfg) (c : Conn) (p l k : ℕ)
    → Phase cfg (some c) p l (k + 1)
    → IsShut cfg c p l (k + 1)
Phase-IsShut cfg c p l k (inl h) = absurd (omega (arith, h.no_close))
Phase-IsShut cfg c p l k (inr (inl h)) = absurd (omega (arith, h.no_close))
Phase-IsShut cfg c p l k (inr (inr h)) = h

-- The phase while a completion of so many requests of each class is being handled.
abbrev pub Counts : RelayCfg → ℕ → List HookResult → Relay → ℕ → ℕ → ℕ → Type 0
Counts cfg cid taken w s r k =
    0 < cid
    → Phase cfg (lookup cid w.conns) (waits cid taken w + s) (relaying cid w + r)
        (closing cid w + k)

unfoldable pub Arrived : RelayCfg → ℕ → List HookResult → Op → Relay → Type 0
Arrived cfg cid taken op w =
    Counts cfg cid taken w (start_bit (class op)) (relay_bit (class op)) (close_bit (class op))

remains :
    (cfg : RelayCfg) (cid : ℕ) (taken : List HookResult) (w : Relay)
    → Rest cfg cid taken w
    → (0 < cid → PhaseAt cfg cid taken w)
    → SoundHeld cfg taken w w
remains cfg cid taken w h own = stays cfg taken w (whole cfg cid taken w h own)

module _ (cfg : RelayCfg) (cid : ℕ) (taken : List HookResult) (w : Relay)
    (h : Rest cfg cid taken w) where
  pub positive : (c : Conn) → lookup cid w.conns ≡ some c → 0 < cid
  positive c e = elim (Bool-cases (0 == cid)) [
    | inl zero_id ↦
        let i : 0 ≡ cid = ground (arith, zero_id) in
        let gone = lookup-eq_none 0 w.conns h.no_zero in
        absurd (cc (subst (λ j. lookup j w.conns ≡ some c) (sym i) e, gone))
    | inr ne ↦ ground (arith, ne)
  ]

  -- A case about the connection of the id, which is in the map.
  pub case_of :
      (c : Conn) (v : Relay)
      → lookup cid w.conns ≡ some c
      → (lookup c.id w.conns ≡ some c
          → entries c.id w.conns ≤ 1
          → Lands cfg c.id w v (waits cid taken w) (relaying cid w) (closing cid w))
      → SoundHeld cfg taken w v
  case_of c v e go =
      let same = h.keyed cid c e in
      lands-Sound cfg cid taken w v (known cfg cid taken w c h e) h (
        subst (λ i. Lands cfg i w v (waits cid taken w) (relaying cid w) (closing cid w)) same
          (go (ap (λ i. lookup i w.conns) same ∙ e) (h.unique c.id)))

module _ (cfg : RelayCfg) (cid : ℕ) (taken : List HookResult) (w : Relay)
    (h : Rest cfg cid taken w) where
  pub starts_case :
      (rest : Conn → Relay → Relay)
      → Counts cfg cid taken w 1 0 0
      → ((c : Conn) (p l k : ℕ)
          → lookup c.id w.conns ≡ some c
          → entries c.id w.conns ≤ 1
          → IsStarting c (p + 1) l k
          → Lands cfg c.id w (rest c w) p l k)
      → SoundHeld cfg taken w (with_conn cid rest w)
  starts_case rest arrived go = elim (Option-cases (lookup cid w.conns)) [
    | inl e ↦
        rw (e, with_conn)
          (remains cfg cid taken w h (λ pos.
            let was = moved cfg e refl refl refl (arrived pos) in absurd (omega (arith, was.0))))
    | inr (c, e) ↦
        rw (e, with_conn)
          (case_of cfg cid taken w h c (rest c w) e (λ found once.
            go c (waits cid taken w) (relaying cid w) (closing cid w) found once (
              Phase-IsStarting cfg c (waits cid taken w) (relaying cid w) (closing cid w) (
                moved cfg e refl (omega arith) (omega arith)
                  (arrived (positive cfg cid taken w h c e))))))
  ]

  pub relays_case :
      (rest : Conn → Relay → Relay)
      → Counts cfg cid taken w 0 1 0
      → ((c : Conn) (p l k : ℕ)
          → lookup c.id w.conns ≡ some c
          → entries c.id w.conns ≤ 1
          → IsRelaying cfg c p k
          → Lands cfg c.id w (rest c w) p l k)
      → SoundHeld cfg taken w (with_open cid rest w)
  relays_case rest arrived go = elim (Option-cases (lookup cid w.conns)) [
    | inl e ↦
        rw (e, with_conn)
          (remains cfg cid taken w h (λ pos.
            let was = moved cfg e refl refl refl (arrived pos) in
            moved cfg (sym e) refl (refl {a = relaying cid w}) refl
              (omega (arith, was.0), omega (arith, was.1), λ d. absurd (omega (arith, was.2 d)))))
    | inr (c, e) ↦
        let p = waits cid taken w in
        let l = relaying cid w in
        let k = closing cid w in
        let was : Phase cfg (some c) p (l + 1) k =
          moved cfg e (omega arith) refl (omega arith) (arrived (positive cfg cid taken w h c e)) in
        rw (e, with_conn)
          (if-rule (SoundHeld cfg taken w) c.closing
            (λ _.
              remains cfg cid taken w h
                (λ _. moved cfg (sym e) refl refl refl (stale cfg c p l k was)))
            (λ going.
              case_of cfg cid taken w h c (rest c w) e
                (λ found once. go c p l k found once (Phase-IsRelaying cfg c p l k going was))))
  ]

  pub close_case : Counts cfg cid taken w 0 0 1 → SoundHeld cfg taken w (on_close cfg cid w)
  unfolding on_close
  close_case arrived = elim (Option-cases (lookup cid w.conns)) [
    | inl e ↦
        rw (e, with_conn)
          (remains cfg cid taken w h (λ pos.
            let was = moved cfg e refl refl refl (arrived pos) in absurd (omega (arith, was.1))))
    | inr (c, e) ↦
        let p = waits cid taken w in
        let l = relaying cid w in
        let k = closing cid w in
        let was : Phase cfg (some c) p l (k + 1) =
          moved cfg e (omega arith) (omega arith) refl (arrived (positive cfg cid taken w h c e)) in
        rw (e, with_conn)
          (case_of cfg cid taken w h c (close_found cfg cid c w) e (λ found once.
            subst (λ i. Lands cfg c.id w (close_found cfg i c w) p l k) (h.keyed cid c e)
              (close_found-Lands cfg c w p l k found once (Phase-IsShut cfg c p l k was))))
  ]
