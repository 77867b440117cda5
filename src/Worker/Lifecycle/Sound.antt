-- ===== src/Worker/Lifecycle/Sound.antt =====
-- The invariant of a worker of flashrelay/worker.go: every connection is in phase, and an id that
-- was not given out yet has nothing outstanding.
use flash_relay.Base.{
  ℕ, ◌+◌, ◌≤◌, ◌<◌, ◌≡◌, ◌∙◌, refl, ap, true, false, List, none, some, inl, inr, arith, Bool-cases,
  ltb, ◌==◌,
}
use mathlib.Core.Path.{subst}
use flash_relay.Worker.State.{Conn, HookResult, Worker, Counters, Syscall}
use flash_relay.Worker.Conns.{find, count_id, find-eq_none}
use flash_relay.Worker.Tokens.{Tokens, tokens}
use flash_relay.Worker.Lifecycle.{InPhase, deciding}
use flash_relay.Worker.Lifecycle.Others.{Other, Other-InPhase, Narrows}

-- How many requests there are for a connection.
abbrev pub load : Tokens → ℕ
load t =
    t.recv_req + t.reply_client + t.reply_more + t.send_up + t.reject_send + t.c2u_recv + t.c2u_send
    + t.u2c_recv + t.u2c_send + t.close

pub record IsFresh (id : ℕ) (taken : List HookResult) (w : Worker) : Type 0 where
  pub absent : count_id id w.conns ≡ 0
  pub quiet : load (tokens id w.posted) ≡ 0
  pub undecided : deciding id taken w ≡ 0

-- What a case may rely on for the connections that it is not about.
pub record Rest (cid : ℕ) (taken : List HookResult) (w : Worker) : Type 0 where
  pub unique : (id : ℕ) → count_id id w.conns ≤ 1
  pub others : (id : ℕ) → (cid == id) ≡ false → InPhase id taken w
  pub fresh : (id : ℕ) → w.next_id < id → IsFresh id taken w
  pub no_zero : count_id 0 w.conns ≡ 0

pub record Sound (taken : List HookResult) (w : Worker) : Type 0 where
  pub unique : (id : ℕ) → count_id id w.conns ≤ 1
  pub phase : (id : ℕ) → InPhase id taken w
  pub fresh : (id : ℕ) → w.next_id < id → IsFresh id taken w
  pub no_zero : count_id 0 w.conns ≡ 0

same_id : (a b : ℕ) → (a == b) ≡ true → a ≡ b
same_id a b h = ground arith

-- The rest and the connection itself make the whole.
pub whole :
    (cid : ℕ) (taken : List HookResult) (w : Worker)
    → Rest cid taken w
    → InPhase cid taken w
    → Sound taken w
whole cid taken w h own = record {
  unique = h.unique;
  phase = λ id. elim (Bool-cases (cid == id)) [
    | inl e ↦ subst (λ i. InPhase i taken w) (same_id cid id e) own
    | inr e ↦ h.others id e
  ];
  fresh = h.fresh;
  no_zero = h.no_zero;
}

pub Sound-Rest : (cid : ℕ) (taken : List HookResult) (w : Worker) → Sound taken w → Rest cid taken w
Sound-Rest cid taken w h = record {
  unique = h.unique;
  others = λ id _. h.phase id;
  fresh = h.fresh;
  no_zero = h.no_zero;
}

pub Other-IsFresh :
    (id : ℕ) (taken : List HookResult) (u v : Worker)
    → Other id u v
    → IsFresh id taken u
    → IsFresh id taken v
Other-IsFresh id taken u v k h = record {
  absent = k.count_eq ∙ h.absent;
  quiet = ap load k.tokens_eq ∙ h.quiet;
  undecided = omega (arith, k.waits_eq, h.undecided);
}

-- A case about a connection that was given its id leaves the rest as it is.
pub Rest-step :
    (cid : ℕ) (taken : List HookResult) (u v : Worker)
    → cid ≤ u.next_id
    → ((id : ℕ) → (cid == id) ≡ false → Other id u v)
    → Narrows u v
    → Rest cid taken u
    → Rest cid taken v
Rest-step cid taken u v known k narrows h = record {
  unique = λ id. omega (arith, narrows.counts_le id, h.unique id);
  others = λ id ne. Other-InPhase id taken u v (k id ne) (h.others id ne);
  fresh = λ id beyond.
      let old : u.next_id < id = omega (arith, narrows.next_eq) in
      let ne : (cid == id) ≡ false = ground arith in
      Other-IsFresh id taken u v (k id ne) (h.fresh id old);
  no_zero = omega (arith, narrows.counts_le 0, h.no_zero);
}

-- What is outstanding for no connection changes nothing.
pub carry :
    (taken : List HookResult) (u v : Worker)
    → ((id : ℕ) → Other id u v)
    → Narrows u v
    → Sound taken u
    → Sound taken v
carry taken u v k narrows h = record {
  unique = λ id. omega (arith, narrows.counts_le id, h.unique id);
  phase = λ id. Other-InPhase id taken u v (k id) (h.phase id);
  fresh = λ id beyond.
      let old : u.next_id < id = omega (arith, narrows.next_eq) in
      Other-IsFresh id taken u v (k id) (h.fresh id old);
  no_zero = omega (arith, narrows.counts_le 0, h.no_zero);
}

-- The fields that no connection's phase is about.
pub bookkept :
    (taken : List HookResult) (w : Worker) (tick inflight : ℕ) (cnt : Counters)
    (calls : List Syscall)
    → Sound taken w
    → Sound taken (record w { tick = tick; accept_inflight = inflight; cnt = cnt; calls = calls })
bookkept taken w tick inflight cnt calls h =
    carry taken w _
      (λ id. record { found_eq = refl; count_eq = refl; tokens_eq = refl; waits_eq = refl })
      (record { next_eq = refl; counts_le = λ id. omega arith }) h

-- A connection that is in the map was given its id.
pub found_known :
    (cid : ℕ) (taken : List HookResult) (w : Worker) (c : Conn)
    → Rest cid taken w
    → find cid w.conns ≡ some c
    → cid ≤ w.next_id
found_known cid taken w c h e = elim (Bool-cases (ltb w.next_id cid)) [
  | inl beyond ↦
      let gone = find-eq_none cid w.conns (h.fresh cid (ground arith)).absent in
      absurd (cc (e, gone))
  | inr known ↦ ground arith
]

-- A connection that is not in the map is in phase.
pub absent-InPhase :
    (cid : ℕ) (taken : List HookResult) (w : Worker) → find cid w.conns ≡ none → InPhase cid taken w
absent-InPhase cid taken w e = record { phase = rw e tt }
