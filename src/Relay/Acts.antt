-- ===== src/Relay/Acts.antt =====
-- What a case of research/gate/cmd/relay-uring/main.go does that is about one connection: what becomes
-- of its entry, what it puts in flight for it, and that it leaves all else alone.
pub mod Moves
pub mod Closing
use flash_relay.Base.{
  ℕ, ◌+◌, ◌≤◌, ◌≡◌, ◌&&◌, ◌∙◌, refl, Bool, true, false, List, [], ◌∷◌, Option, none, some, arith,
  ◌==◌, if◌then◌else◌, length,
}
use flash_relay.Base.Sums.{tally}
use flash_relay.Base.Table.{lookup, entries}
use flash_relay.Relay.State.{Conn, HookResult, RelayCfg, Tag, Request, Relay}
use flash_relay.Relay.Ops
use flash_relay.Relay.Ops.{Op}
use flash_relay.Relay.Actions.{blank}
use flash_relay.Relay.Kernel.{tag_of}

-- A connection's operations before the relay in both directions, those of that relay, and its closes.
pub data Class : Type 0 where
  service starts relays closes : Class

abbrev pub class : Op → Class
class Ops.accept = service
class Ops.eventfd = service
class Ops.timeout = service
class Ops.recv_req = starts
class Ops.send_up = starts
class Ops.recv_resp = starts
class Ops.send_client = starts
class Ops.close = closes
class _ = relays

abbrev pub start_bit : Class → ℕ
start_bit starts = 1
start_bit _ = 0

abbrev pub relay_bit : Class → ℕ
relay_bit relays = 1
relay_bit _ = 0

abbrev pub close_bit : Class → ℕ
close_bit closes = 1
close_bit _ = 0

abbrev pub accept_bit : Op → ℕ
accept_bit Ops.accept = 1
accept_bit _ = 0

-- A request's weight for an id, or for the index of a listener.
abbrev pub for_id : ℕ → Tag → ℕ → ℕ
for_id id t n = if t.id == id then n else 0

abbrev pub start_of : ℕ → Request → ℕ
start_of id r = for_id id (tag_of r) (start_bit (class (tag_of r).op))

abbrev pub relay_of : ℕ → Request → ℕ
relay_of id r = for_id id (tag_of r) (relay_bit (class (tag_of r).op))

abbrev pub close_of : ℕ → Request → ℕ
close_of id r = for_id id (tag_of r) (close_bit (class (tag_of r).op))

abbrev pub accept_of : ℕ → Request → ℕ
accept_of k r = for_id k (tag_of r) (accept_bit (tag_of r).op)

abbrev pub job_of : ℕ → ℕ → ℕ
job_of id j = if j == id then 1 else 0

abbrev pub result_of : ℕ → HookResult → ℕ
result_of id r = if r.id == id then 1 else 0

-- What is outstanding for a connection before the relay: requests, jobs and decisions.
abbrev pub pending : ℕ → Relay → ℕ
pending id w =
    tally (start_of id) w.posted + tally (job_of id) w.jobs + tally (result_of id) w.br.ready

abbrev pub relaying : ℕ → Relay → ℕ
relaying id w = tally (relay_of id) w.posted

abbrev pub closing : ℕ → Relay → ℕ
closing id w = tally (close_of id) w.posted

-- A struct of the freelist is reset, its buffers apart.
abbrev pub AllBlank : List Conn → Type 0
AllBlank [] = Unit {0}
AllBlank (c ∷ cs) = (c ≡ blank c.req_buf c.resp_buf) × AllBlank cs

pub record Tidy (cfg : RelayCfg) (w : Relay) : Type 0 where
  pub blanks : AllBlank w.conn_free

-- From one worker to the next: the entry that the id has then, and what is more in flight for it.
pub record Acts (cfg : RelayCfg) (cid : ℕ) (u v : Relay) (o : Option Conn) (s r c : ℕ)
    : Type 0 where
  pub own : lookup cid v.conns ≡ o
  pub named : (x : Conn) → o ≡ some x → x.id ≡ cid
  pub own_pending : pending cid v ≡ pending cid u + s
  pub own_relaying : relaying cid v ≡ relaying cid u + r
  pub own_closing : closing cid v ≡ closing cid u + c
  pub others : (id : ℕ) → (cid == id) ≡ false → lookup id v.conns ≡ lookup id u.conns
  pub pending_eq : (id : ℕ) → (cid == id) ≡ false → pending id v ≡ pending id u
  pub relaying_eq : (id : ℕ) → (cid == id) ≡ false → relaying id v ≡ relaying id u
  pub closing_eq : (id : ℕ) → (cid == id) ≡ false → closing id v ≡ closing id u
  pub entries_le : (id : ℕ) → entries id v.conns ≤ entries id u.conns
  pub fewer : length v.conns ≤ length u.conns
  pub next_eq : v.next_id ≡ u.next_id
  pub inflight_eq : v.accept_inflight ≡ u.accept_inflight
  pub total_eq : v.total_accepts ≡ u.total_accepts
  pub armed_eq : (k : ℕ) → tally (accept_of k) v.posted ≡ tally (accept_of k) u.posted
  pub tidy : Tidy cfg u → Tidy cfg v

module _ {cfg : RelayCfg} {cid : ℕ} {u v w : Relay} {o o' : Option Conn} where
  pub Acts-trans :
      {s r c s' r' c' : ℕ}
      → Acts cfg cid u v o s r c
      → Acts cfg cid v w o' s' r' c'
      → Acts cfg cid u w o' (s + s') (r + r') (c + c')
  Acts-trans h k = record {
    own = k.own;
    named = k.named;
    own_pending = omega (arith, h.own_pending, k.own_pending);
    own_relaying = omega (arith, h.own_relaying, k.own_relaying);
    own_closing = omega (arith, h.own_closing, k.own_closing);
    others = λ id ne. k.others id ne ∙ h.others id ne;
    pending_eq = λ id ne. k.pending_eq id ne ∙ h.pending_eq id ne;
    relaying_eq = λ id ne. k.relaying_eq id ne ∙ h.relaying_eq id ne;
    closing_eq = λ id ne. k.closing_eq id ne ∙ h.closing_eq id ne;
    entries_le = λ id. omega (arith, h.entries_le id, k.entries_le id);
    fewer = omega (arith, h.fewer, k.fewer);
    next_eq = k.next_eq ∙ h.next_eq;
    inflight_eq = k.inflight_eq ∙ h.inflight_eq;
    total_eq = k.total_eq ∙ h.total_eq;
    armed_eq = λ i. k.armed_eq i ∙ h.armed_eq i;
    tidy = λ t. k.tidy (h.tidy t);
  }

module _ {cfg : RelayCfg} {cid : ℕ} {u v : Relay} {o : Option Conn} where
  pub Acts-cast :
      {s r c s' r' c' : ℕ}
      → s ≡ s'
      → r ≡ r'
      → c ≡ c'
      → Acts cfg cid u v o s r c
      → Acts cfg cid u v o s' r' c'
  Acts-cast e f g h = record {
    own = h.own;
    named = h.named;
    own_pending = omega (arith, h.own_pending);
    own_relaying = omega (arith, h.own_relaying);
    own_closing = omega (arith, h.own_closing);
    others = h.others;
    pending_eq = h.pending_eq;
    relaying_eq = h.relaying_eq;
    closing_eq = h.closing_eq;
    entries_le = h.entries_le;
    fewer = h.fewer;
    next_eq = h.next_eq;
    inflight_eq = h.inflight_eq;
    total_eq = h.total_eq;
    armed_eq = h.armed_eq;
    tidy = h.tidy;
  }

module _ {cfg : RelayCfg} {cid : ℕ} {u v w : Relay} {o o' : Option Conn} {s r c : ℕ} where
  -- A move that puts nothing in flight, before or after.
  pub first_then : Acts cfg cid u v o 0 0 0 → Acts cfg cid v w o' s r c → Acts cfg cid u w o' s r c
  first_then h k = Acts-cast (omega arith) (omega arith) (omega arith) (Acts-trans h k)

  pub then_last : Acts cfg cid u v o s r c → Acts cfg cid v w o' 0 0 0 → Acts cfg cid u w o' s r c
  then_last h k = Acts-cast (omega arith) (omega arith) (omega arith) (Acts-trans h k)
