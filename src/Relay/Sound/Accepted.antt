-- ===== src/Relay/Sound/Accepted.antt =====
-- The invariant through `case opAccept` of research/gate/cmd/relay-uring/main.go, on each branch.
use flash_relay.Base.{
  ℕ, ◌+◌, ◌-◌, ◌≤◌, ◌<◌, ◌≡◌, ◌∙◌, refl, sym, ap, false, List, [], arith, if-rule, ◌==◌, ==_refl,
  leb, if◌then◌else◌, lt→ltb, length, get_or, set, length-set,
}
use Prim.Native.Nat.{max}
use flash_relay.Base.Int.{ℤ, is_neg}
use flash_relay.Base.Words.{add64}
use flash_relay.Base.Sums.{tally, tally-cons}
use flash_relay.Base.Table.{length-insert_le}
use flash_relay.Worker.Ops.{max_id}
use flash_relay.Relay.State.{Conn, RelayCfg, recv, close, Relay}
use flash_relay.Relay.Ops
use flash_relay.Relay.Actions.{tag, post, write}
use flash_relay.Relay.Cases.{admit, on_accept}
use flash_relay.Relay.Acts.{accept_of}
use flash_relay.Relay.Sound.{Calm, Sound, Armed, moved}
use flash_relay.Relay.Sound.Switch.{After}
use flash_relay.Relay.Sound.Accepts.{tally-set, get_or-set, lt-get_or}
use flash_relay.Relay.Sound.Admits.{get_conn-Got, admitted-Sound}

-- The counters, and those of the accepts, are no matter of the invariant.
counted-Sound :
    (cfg : RelayCfg) (w : Relay) (inflight : List ℕ) (total accepted shed errs g_accepted : ℕ)
    → Sound cfg [] w
    → Sound cfg [] (record w {
      accept_inflight = inflight;
      total_accepts = total;
      accepted = accepted;
      shed = shed;
      errs = errs;
      g_accepted = g_accepted;
    })
counted-Sound cfg w inflight total accepted shed errs g_accepted h = record {
  unique = h.unique;
  keyed = h.keyed;
  phase = h.phase;
  fresh = λ id beyond.
      let old = h.fresh id beyond in record { absent = old.absent; no_relay = old.no_relay };
  no_zero = h.no_zero;
  tidy = record { blanks = h.tidy.blanks };
}

-- The close of a client that is shed is for id 0, which no connection has.
shed-Sound :
    (cfg : RelayCfg) (w : Relay) (fd : ℤ)
    → Sound cfg [] w
    → Sound cfg [] (post (close fd (tag 0 Ops.close)) w)
unfolding post tally
shed-Sound cfg w fd h = record {
  unique = h.unique;
  keyed = h.keyed;
  phase = λ id pos.
      let ne : (0 == id) ≡ false = ground (arith, pos) in
      moved cfg refl (rw ne (omega arith)) (rw ne (omega arith)) (rw ne (omega arith))
        (h.phase id pos);
  fresh = λ id beyond.
      let old = h.fresh id beyond in
      record { absent = old.absent; no_relay = ground (arith, old.no_relay) };
  no_zero = h.no_zero;
  tidy = record { blanks = h.tidy.blanks };
}

-- The accepts while the completion of one of listener k is being handled.
pub record Taken (cfg : RelayCfg) (k : ℕ) (w : Relay) : Type 0 where
  pub each :
      (j : ℕ)
      → tally (accept_of j) w.posted + (if k == j then 1 else 0) ≡ get_or w.accept_inflight j 0
  pub listeners : length w.accept_inflight ≡ length cfg.lns
  pub sum : w.total_accepts ≡ tally (λ (n : ℕ). n) w.accept_inflight
  pub room : length w.conns + w.total_accepts ≤ max cfg.max_conns (length cfg.lns)

pub Calm-Taken : (cfg : RelayCfg) (k : ℕ) (u v : Relay) → Calm u v → Taken cfg k u → Taken cfg k v
Calm-Taken cfg k u v h a = record {
  each = λ j. omega (arith, h.armed_eq j, a.each j, ap (λ xs. get_or xs j 0) h.inflight_eq);
  listeners = ap length h.inflight_eq ∙ a.listeners;
  sum = h.total_eq ∙ a.sum ∙ ap (tally (λ (n : ℕ). n)) (sym h.inflight_eq);
  room = omega (arith, h.total_eq, h.fewer, a.room);
}

module _ (cfg : RelayCfg) (k : ℕ) (w : Relay) (a : Taken cfg k w) where
  one_less : List ℕ
  one_less = set w.accept_inflight k (get_or w.accept_inflight k 0 - 1)

  some_armed : 0 < get_or w.accept_inflight k 0
  some_armed = ground (arith, a.each k, ==_refl k)

  within : k < length w.accept_inflight
  within = lt-get_or w.accept_inflight k some_armed

  total_pos : tally (λ (n : ℕ). n) one_less + 1 ≡ w.total_accepts
  unfolding one_less
  total_pos =
      let n = get_or w.accept_inflight k 0 in
      omega (arith, tally-set w.accept_inflight k (n - 1) within, some_armed, a.sum)

  -- With the count of the listener lowered, and one connection more at most.
  lowered :
      (v : Relay)
      → ((j : ℕ) → tally (accept_of j) v.posted ≡ tally (accept_of j) w.posted)
      → v.accept_inflight ≡ one_less
      → v.total_accepts ≡ w.total_accepts - 1
      → length v.conns ≤ length w.conns + 1
      → Armed cfg v
  unfolding one_less
  lowered v same inflight total grown =
      let n = get_or w.accept_inflight k 0 in
      record {
        each = λ j.
            rw inflight
              (ground (arith, same j, a.each j, get_or-set w.accept_inflight k j (n - 1) within));
        listeners = rw inflight (length-set w.accept_inflight k (n - 1) ∙ a.listeners);
        sum = rw inflight (unfold one_less in omega (arith, total, total_pos));
        room = omega (arith, total, grown, total_pos, a.room);
      }

module _ (cfg : RelayCfg) (k : ℕ) (res : ℤ) (w : Relay) (h : Sound cfg [] w) (a : Taken cfg k w)
    (small : w.next_id + 1 < max_id) where
  -- `on_accept` from the count of the accept on.
  pub on_accept-After : After cfg [] w (on_accept cfg k res w)
  unfolding on_accept admit post write one_less
  on_accept-After =
      let in_range = lt→ltb k (length w.accept_inflight) (within cfg k w a) in
      let n = get_or w.accept_inflight k 0 in
      let xs = set w.accept_inflight k (n - 1) in
      let t = w.total_accepts - 1 in
      rw in_range (
        if-rule (After cfg [] w) (is_neg res)
          (λ _. record {
            sound = counted-Sound cfg w xs t w.accepted w.shed (add64 w.errs 1) w.g_accepted h;
            next_le = omega arith;
            armed = lowered cfg k w a _ (λ j. refl) refl refl (omega arith);
          })
          (λ _.
            if-rule (After cfg [] w) (leb cfg.max_conns (length w.conns))
              (λ _. record {
                sound = shed-Sound cfg _ res (
                    counted-Sound cfg w xs t (add64 w.accepted 1) (add64 w.shed 1) w.errs
                      (add64 w.g_accepted 1) h);
                next_le = omega arith;
                armed =
                    lowered cfg k w a _
                      (λ j.
                        tally-cons (accept_of j) (close res (tag 0 Ops.close)) w.posted
                        ∙ ground arith)
                      refl refl (omega arith);
              })
              (λ _.
                let w2 : Relay = record w {
                  accept_inflight = xs;
                  total_accepts = t;
                  accepted = add64 w.accepted 1;
                  g_accepted = add64 w.g_accepted 1;
                } in
                let h2 =
                  counted-Sound cfg w xs t (add64 w.accepted 1) w.shed w.errs (add64 w.g_accepted 1)
                    h in
                let id = add64 w.next_id 1 in
                let g = get_conn-Got cfg (record w2 { next_id = id }) h2.tidy.blanks in
                let r = recv res (length g.got.req_buf) (tag id Ops.recv_req) in
                let cc : Conn = record g.got { id = id; client_fd = res } in
                rw g.get_eq (record {
                  sound = admitted-Sound cfg res w2 h2 small g.got g.rest g.is_blank g.blanks;
                  next_le = omega arith;
                  armed =
                      lowered cfg k w a _ (λ j. tally-cons (accept_of j) r w.posted ∙ ground arith)
                        refl refl (length-insert_le id cc w.conns);
                }))))
