-- ===== src/Relay/Sound/Arrivals.antt =====
-- The invariant as a completion arrives in research/gate/cmd/relay-uring/main.go: its request is in
-- flight no more, and the kernel has written what it received.
use flash_relay.Base.{
  ℕ, ◌<◌, ◌≡◌, ◌∙◌, refl, sym, ap, inl, inr, List, [], none, some, arith, Option-cases, ==_refl,
  get_elem?,
}
use mathlib.Core.Path.{subst}
use flash_relay.Base.Sums.{remove_at, tally-remove_at}
use flash_relay.Base.Table.{lookup, lookup-eq_none}
use flash_relay.Relay.State.{Conn, RelayCfg, Tag, Request, Relay}
use flash_relay.Relay.Ops
use flash_relay.Relay.Ops.{Op}
use flash_relay.Relay.Actions.{write}
use flash_relay.Relay.Kernel.{tag_of, receive_into, deliver}
use flash_relay.Relay.Acts.{
  Acts, Class, class, service, starts, relays, closes, accept_bit, start_of, relay_of, close_of,
  accept_of, relaying, closing,
}
use flash_relay.Relay.Acts.Moves.{Acts-write}
use flash_relay.Relay.Phase.{Phase}
use flash_relay.Relay.Sound.{Rest, Sound, Armed, Calm, Calm-refl, waits, moved, acts-Rest, known}
use flash_relay.Relay.Sound.Found.{Arrived}
use flash_relay.Relay.Sound.Accepted.{Taken}

module _ (cfg : RelayCfg) (i : ℕ) (r : Request) (w : Relay) (e : get_elem? w.posted i ≡ some r)
    (h : Sound cfg [] w) where
  abbrev cid : ℕ
  cid = (tag_of r).id

  abbrev left : Relay
  left = record w { posted = remove_at i w.posted }

  pub left-Rest : Rest cfg cid [] left
  left-Rest = record {
    unique = h.unique;
    keyed = h.keyed;
    phase = λ id ne pos.
        moved cfg refl (ground (arith, ne, tally-remove_at (start_of id) i r w.posted e))
          (ground (arith, ne, tally-remove_at (relay_of id) i r w.posted e))
          (ground (arith, ne, tally-remove_at (close_of id) i r w.posted e)) (h.phase id pos);
    fresh = λ id beyond.
        let old = h.fresh id beyond in
        record {
          absent = old.absent;
          no_relay = omega (arith, old.no_relay, tally-remove_at (relay_of id) i r w.posted e);
        };
    no_zero = h.no_zero;
    tidy = record { blanks = h.tidy.blanks };
  }

  pub left-Arrived : Arrived cfg cid [] (tag_of r).op left
  unfolding Arrived
  left-Arrived pos =
      let here = ==_refl cid in
      moved cfg refl (ground (arith, here, tally-remove_at (start_of cid) i r w.posted e))
        (ground (arith, here, tally-remove_at (relay_of cid) i r w.posted e))
        (ground (arith, here, tally-remove_at (close_of cid) i r w.posted e)) (h.phase cid pos)

  -- An accept is taken off its listener's.
  pub left-Taken : Armed cfg w → accept_bit (tag_of r).op ≡ 1 → Taken cfg cid left
  left-Taken a is_accept = record {
    each = λ j. ground (arith, is_accept, a.each j, tally-remove_at (accept_of j) i r w.posted e);
    listeners = a.listeners;
    sum = a.sum;
    room = a.room;
  }

  pub left-Armed : Armed cfg w → accept_bit (tag_of r).op ≡ 0 → Armed cfg left
  left-Armed a no_accept = record {
    each = λ j. ground (arith, no_accept, a.each j, tally-remove_at (accept_of j) i r w.posted e);
    listeners = a.listeners;
    sum = a.sum;
    room = a.room;
  }

  -- A request for an id that is still to be given out is one of the worker's own.
  pub beyond-service : w.next_id < cid → class (tag_of r).op ≡ service
  beyond-service beyond = by_class (class (tag_of r).op) refl
    where
      gone : lookup cid w.conns ≡ none
      gone = lookup-eq_none cid w.conns (h.fresh cid beyond).absent

      quiet : Phase cfg none (waits cid [] w) (relaying cid w) (closing cid w)
      quiet = moved cfg gone refl refl refl (h.phase cid (omega arith))

      by_class : (c : Class) → class (tag_of r).op ≡ c → class (tag_of r).op ≡ service
      by_class service is = is
      by_class starts is =
          absurd (
            ground (arith, is, quiet.0, ==_refl cid, tally-remove_at (start_of cid) i r w.posted e))
      by_class relays is = absurd (
          ground (
            arith,
            is,
            (h.fresh cid beyond).no_relay,
            ==_refl cid,
            tally-remove_at (relay_of cid) i r w.posted e,
          ))
      by_class closes is =
          absurd (
            ground (arith, is, quiet.1, ==_refl cid, tally-remove_at (close_of cid) i r w.posted e))

-- The buffers are no matter of the phase.
buffers :
    (cfg : RelayCfg) (c : Conn) (req resp c2u u2c : List ℕ) (p l k : ℕ)
    → Phase cfg (some c) p l k
    → Phase cfg
        (some (record c { req_buf = req; resp_buf = resp; c2u_buf = c2u; u2c_buf = u2c }))
        p
        l
        k
buffers cfg c req resp c2u u2c p l k (inl h) = inl (record {
  going = h.going;
  one = h.one;
  no_relay = h.no_relay;
  no_close = h.no_close;
  no_pipes = h.no_pipes;
})
buffers cfg c req resp c2u u2c p l k (inr (inl h)) = inr (
    inl
      (record { going = h.going; no_pending = h.no_pending; no_close = h.no_close; both = h.both }))
buffers cfg c req resp c2u u2c p l k (inr (inr h)) = inr (
    inr (record {
      gone = h.gone;
      no_pending = h.no_pending;
      closes = h.closes;
      some_left = h.some_left;
      plain = h.plain;
    }))

received :
    (cfg : RelayCfg) (op : Op) (bytes : List ℕ) (c : Conn) (p l k : ℕ)
    → Phase cfg (some c) p l k
    → Phase cfg (some (receive_into op bytes c)) p l k
received cfg Ops.recv_req bytes c p l k h = buffers cfg c _ _ _ _ p l k h
received cfg Ops.recv_resp bytes c p l k h = buffers cfg c _ _ _ _ p l k h
received cfg Ops.c2u_recv bytes c p l k h = buffers cfg c _ _ _ _ p l k h
received cfg Ops.u2c_recv bytes c p l k h = buffers cfg c _ _ _ _ p l k h
received cfg _ bytes c p l k h = h

receive_into-id : (op : Op) (bytes : List ℕ) (c : Conn) → (receive_into op bytes c).id ≡ c.id
receive_into-id Ops.recv_req bytes c = refl
receive_into-id _ bytes c = refl

-- The kernel's bytes are written before the worker sees the completion.
pub record Received (cfg : RelayCfg) (t : Tag) (u v : Relay) : Type 0 where
  pub rest : Rest cfg t.id [] v
  pub arrived : Arrived cfg t.id [] t.op v
  pub calm : Calm u v

pub deliver-Received :
    (cfg : RelayCfg) (t : Tag) (bytes : List ℕ) (w : Relay)
    → Rest cfg t.id [] w
    → Arrived cfg t.id [] t.op w
    → Received cfg t w (deliver t bytes w)
unfolding deliver Arrived
deliver-Received cfg t bytes w h p = elim (Option-cases (lookup t.id w.conns)) [
  | inl e ↦ rw (e, deliver) (record { rest = h; arrived = unfold Arrived in p; calm = Calm-refl w })
  | inr (c, e) ↦
      let c' = receive_into t.op bytes c in
      let same : c'.id ≡ t.id = receive_into-id t.op bytes c ∙ h.keyed t.id c e in
      let a : Acts cfg t.id w (write c' w) (some c') 0 0 0 =
        subst (λ i. Acts cfg i w (write c' w) (some c') 0 0 0) same
          (Acts-write cfg c' c w (ap (λ i. lookup i w.conns) same ∙ e)) in
      rw (e, deliver)
        (record {
          rest =
              acts-Rest cfg t.id [] w (write c' w) (some c') 0 0 0 (known cfg t.id [] w c h e) h a;
          arrived =
              unfold Arrived in
              λ pos.
                moved cfg (sym a.own) (omega (arith, a.own_pending)) (omega (arith, a.own_relaying))
                  (omega (arith, a.own_closing))
                  (received cfg t.op bytes c _ _ _ (moved cfg e refl refl refl (p pos)));
          calm = record {
            next_eq = a.next_eq;
            inflight_eq = a.inflight_eq;
            total_eq = a.total_eq;
            armed_eq = a.armed_eq;
            fewer = a.fewer;
          };
        })
]
