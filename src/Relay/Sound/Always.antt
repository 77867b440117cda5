-- ===== src/Relay/Sound/Always.antt =====
-- What holds after every run of a worker of research/gate/cmd/relay-uring/main.go.
use flash_relay.Base.{
  ℕ, zero, suc, ◌+◌, ◌≤◌, ◌<◌, ◌≡◌, ◌∙◌, refl, sym, inl, inr, false, List, [], ◌∷◌, Option, none,
  some, arith, get_or, length, replicate, length-replicate, if◌then◌else◌,
}
use mathlib.Core.Path.{subst}
use flash_relay.Base.Int.{ℤ}
use flash_relay.Base.Sums.{tally}
use flash_relay.Base.Table.{lookup, entries}
use flash_relay.Worker.Ops.{max_id}
use flash_relay.Relay.State.{Conn, RelayCfg, read, timer, Relay}
use flash_relay.Relay.Ops
use flash_relay.Relay.Ops.{Op, op_code, op_case, op_case-op_code, op_code-lt}
use flash_relay.Relay.Actions.{blank, get_conn, post_accept, tag, post, post_eventfd, post_timeout}
use flash_relay.Relay.Loop.{locals, start, accept_from}
use flash_relay.Relay.Kernel.{Event, run}
use flash_relay.Relay.Acts.{pending, relaying, closing}
use flash_relay.Relay.Phase.{Phase}
use flash_relay.Relay.Sound.{Armed, Calm-Armed, moved}
use flash_relay.Relay.Sound.Rounds.{served}
use flash_relay.Relay.Sound.Accepts.{Ready, accept_from-Ready}
use flash_relay.Relay.Sound.Runs.{run-Ready}
use flash_relay.Relay.Sizes.{get_conn-Buffered}
use flash_relay.Relay.Sizes.Runs.{always-Buffered}
use flash_relay.Relay.Sound.Admits.{get_conn-Got}

get_or-replicate : (n j : ℕ) → get_or {A = ℕ} (replicate n 0) j 0 ≡ 0
get_or-replicate zero j = refl
get_or-replicate (suc n) zero = refl
get_or-replicate (suc n) (suc j) = get_or-replicate n j

tally-replicate : (n : ℕ) → tally (λ (x : ℕ). x) (replicate n 0) ≡ 0
unfolding tally
tally-replicate zero = refl
tally-replicate (suc n) = omega (arith, tally-replicate n)

locals-Ready : (cfg : RelayCfg) → Ready cfg (locals cfg)
unfolding tally lookup entries
locals-Ready cfg = record {
  sound = record {
    unique = λ id. omega arith;
    keyed = λ id c e. cc e;
    phase = λ id pos. (refl, refl, λ _. refl);
    fresh = λ id beyond. record { absent = refl; no_relay = refl };
    no_zero = refl;
    tidy = record { blanks = tt };
  };
  armed = record {
    each = λ k. sym (get_or-replicate (length cfg.lns) k);
    listeners = length-replicate (length cfg.lns) 0;
    sum = sym (tally-replicate (length cfg.lns));
    room = omega arith;
  };
}

next_id-accept_from :
    (cfg : RelayCfg) (k : ℕ) (lns : List ℤ) (w : Relay)
    → (accept_from cfg k lns w).next_id ≡ w.next_id
unfolding accept_from post_accept post
next_id-accept_from cfg k [] w = refl
next_id-accept_from cfg k (ln ∷ lns) w = next_id-accept_from cfg (suc k) lns _

start-Ready : (cfg : RelayCfg) → Ready cfg (start cfg) × ((start cfg).next_id ≡ 0)
unfolding start post_eventfd post_timeout
start-Ready cfg =
    let w = accept_from cfg 0 cfg.lns (locals cfg) in
    let h =
      accept_from-Ready cfg 0 cfg.lns (locals cfg) (omega arith) (omega arith) (locals-Ready cfg) in
    let r = read (tag 0 Ops.eventfd) in
    let t = timer (tag 0 Ops.timeout) in
    let one = served cfg [] w r refl refl h.sound in
    let two = served cfg [] (post r w) t refl refl one.sound in
    let armed =
      Calm-Armed cfg (post r w) (post t (post r w)) two.calm
        (Calm-Armed cfg w (post r w) one.calm h.armed) in
    (
      record { sound = two.sound; armed = armed },
      two.calm.next_eq ∙ one.calm.next_eq ∙ next_id-accept_from cfg 0 cfg.lns (locals cfg),
    )

module _ (cfg : RelayCfg) (es : List Event) (few_lns : length cfg.lns ≤ max_id)
    (few : length es < max_id) where
  after : Ready cfg (run cfg es (start cfg))
  after = let h = start-Ready cfg in run-Ready cfg es (start cfg) few_lns (omega (arith, h.1)) h.0

-- What is to be outstanding for an id: nothing without a connection, the closes of one that is
-- closing, and one thing for another.
abbrev pub due : Option Conn → ℕ
due none = 0
due (some c) = if c.closing then c.closes_left else 1

due-Phase :
    (cfg : RelayCfg) (o : Option Conn) (p l k : ℕ)
    → cfg.duplex ≡ false
    → Phase cfg o p l k
    → p + l + k ≡ due o
due-Phase cfg none p l k plain h = omega (arith, h.0, h.1, h.2 plain)
due-Phase cfg (some c) p l k plain (inl h) = ground (arith, h.going, h.one, h.no_relay, h.no_close)
due-Phase cfg (some c) p l k plain (inr (inl h)) = absurd (cc (plain, h.both))
due-Phase cfg (some c) p l k plain (inr (inr h)) =
    ground (arith, h.gone, h.no_pending, h.closes, h.plain plain)

-- Without -duplex, whatever the kernel and the hooks do in fewer than 2^56 events, with at most 2^56
-- listeners: for every id but 0, all that is outstanding for it (the requests of every operation on a
-- connection, its jobs and decisions, and its closes in flight) is one thing for a connection that is
-- not closing, the closes left for one that is, and nothing where the map has no connection.
pub one_outstanding :
    (cfg : RelayCfg) (es : List Event) (id : ℕ)
    → length cfg.lns ≤ max_id
    → length es < max_id
    → cfg.duplex ≡ false
    → 0 < id
    → pending id (run cfg es (start cfg))
        + relaying id (run cfg es (start cfg))
        + closing id (run cfg es (start cfg))
      ≡ due (lookup id (run cfg es (start cfg)).conns)
unfolding tally
one_outstanding cfg es id few_lns few plain pos =
    let w = run cfg es (start cfg) in
    due-Phase cfg (lookup id w.conns) (pending id w) (relaying id w) (closing id w) plain
      (moved cfg refl (omega arith) refl refl ((after cfg es few_lns few).sound.phase id pos))

-- The struct of a new connection, but for the bytes in its buffers.
abbrev pub LikeNew : RelayCfg → Conn → Type 0
LikeNew cfg c =
    (c ≡ blank c.req_buf c.resp_buf)
    × (length c.req_buf ≡ cfg.req_len)
    × (length c.resp_buf ≡ cfg.reply_len)

-- Whatever the kernel and the hooks do in fewer than 2^56 events, with at most 2^56 listeners, the
-- struct that getConn gives next is that of a new connection in all but the bytes of its buffers, whose
-- lengths are those of the configuration, also where it comes from the freelist.
pub get_conn-blank :
    (cfg : RelayCfg) (es : List Event)
    → length cfg.lns ≤ max_id
    → length es < max_id
    → LikeNew cfg (get_conn cfg (run cfg es (start cfg))).0
get_conn-blank cfg es few_lns few =
    let w = run cfg es (start cfg) in
    let g = get_conn-Got cfg w (after cfg es few_lns few).sound.tidy.blanks in
    let (req, resp) = (get_conn-Buffered cfg w (always-Buffered cfg es)).0 in
    (
      subst (λ (x : Conn × Relay). x.0 ≡ blank x.0.req_buf x.0.resp_buf) (sym g.get_eq) g.is_blank,
      req,
      resp,
    )

-- Whatever the kernel and the hooks do in fewer than 2^56 events, with at most 2^56 listeners,
-- acceptInflight[k] is the number of accepts in flight for listener k, for every k, totalAccepts is
-- their sum, and it is with the connections within MaxConns, or within the number of listeners where
-- that is larger.
pub accepts-Armed :
    (cfg : RelayCfg) (es : List Event)
    → length cfg.lns ≤ max_id
    → length es < max_id
    → Armed cfg (run cfg es (start cfg))
accepts-Armed cfg es few_lns few = (after cfg es few_lns few).armed
