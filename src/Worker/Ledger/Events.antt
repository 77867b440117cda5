-- ===== src/Worker/Ledger/Events.antt =====
-- What one completion of flashrelay/worker.go charges: the cases that are about no connection or
-- about many, and the `switch`.
use flash_relay.Base.{
  ℕ, zero, suc, ◌+◌, ◌-◌, ◌<◌, ◌≡◌, ◌∙◌, ◌%◌, refl, ap, ◌&&◌, Bool, true, false, List, [], ◌∷◌,
  none, some, arith, ltb, leb, length, if-rule, inl, inr, Option-cases, Bool-cases, if◌then◌else◌,
  ◌==◌,
}
use flash_relay.Base.Int.{ℤ, pos, negsuc, is_neg, is_zero, is_pos}
use flash_relay.Base.Words.{add64}
use flash_relay.Bridge.{clear, drain}
use flash_relay.Worker.State.{Limits, Conn, HookResult, Worker, read}
use flash_relay.Worker.Ops
use flash_relay.Worker.Ops.{Op, op_code, op_case, ud, unpack, max_id}
use flash_relay.Worker.Conns.{find, find-id, find-put_self, le_total-find, total, total-cons}
use flash_relay.Worker.Actions.{
  post, write, close_conn, count_idle_closed, post_timeout, post_eventfd,
}
use flash_relay.Worker.Handlers.{on_accept, admit, new_conn, on_eventfd}
use flash_relay.Worker.Handlers.Hook.{on_hook_result, on_hook_results}
use flash_relay.Worker.Loop.{is_idle, sweep_one, sweep, on_timeout}
use flash_relay.Worker.Lifecycle.{bit}
use flash_relay.Worker.Lifecycle.Sound.{Sound}
use flash_relay.Worker.Lifecycle.Switch.{post-Sound}
use flash_relay.Worker.Lifecycle.Rounds.{hook_result-Sound, drained}
use flash_relay.Worker.Ledger.{
  Booked, Booked_refl, Booked_cast, Booked_trans, Booked_of, unnumbered, uncharged, open_conn,
}
use flash_relay.Worker.Ledger.Closures.{Agrees-refl, booked, close_conn-Booked}
use flash_relay.Worker.Ledger.Decisions.{hook_result-Booked}

-- What the sweep charges a second time: a connection that it finds idle and that is charged already.
unfoldable pub swept_twice_one : Limits → ℕ → Worker → ℕ
swept_twice_one lim id w = elim (find id w.conns) [
  | none ↦ 0
  | some c ↦ if is_idle lim w.tick c then bit c.counted else 0
]

unfoldable pub swept_twice : Limits → List Conn → Worker → ℕ
swept_twice lim [] w = 0
swept_twice lim (c ∷ cs) w = swept_twice_one lim c.id w + swept_twice lim cs (sweep_one lim c.id w)

-- The same over `case opTimeout`.
unfoldable pub timed_twice : Limits → Worker → ℕ
timed_twice lim w =
    let w1 = post_timeout w in
    let w2 : Worker = record w1 { tick = add64 w1.tick 1 } in
    if ltb 0 lim.idle_ticks && w2.tick % 10 == 0 then swept_twice lim w2.conns w2 else 0

sweep_one-Booked :
    (lim : Limits) (id : ℕ) (w : Worker)
    → total unnumbered w.conns ≡ 0
    → Booked (swept_twice_one lim id w) w (sweep_one lim id w)
unfolding sweep_one swept_twice_one write
sweep_one-Booked lim id w numbered = elim (Option-cases (find id w.conns)) [
  | inl e ↦ rw (e, sweep_one, swept_twice_one) (Booked_refl w)
  | inr (c, e) ↦
      let same : c.id ≡ id = find-id id c w.conns e in
      let own : find c.id w.conns ≡ some c = ap (λ i. find i w.conns) same ∙ e in
      let held : is_pos c.client_fd ≡ true =
        ground (arith, le_total-find unnumbered id c w.conns e) in
      let c' : Conn = record c { counted = true } in
      let w1 = write c' (count_idle_closed w) in
      rw (e, sweep_one, swept_twice_one)
        (idle_or_not lim w c (is_idle lim w.tick c) (λ idle.
          let going : c.closing ≡ false = ground (arith, idle) in
          let paid =
            booked (bit c.counted) c' c w (count_idle_closed w).cnt own refl (ground arith) refl in
          Booked_trans (bit c.counted) 0 w w1 (close_conn c' w1) paid (
            close_conn-Booked c' c' w1 (find-put_self c' c w.conns own) (Agrees-refl c') going
              held)))
]
  where
    idle_or_not :
        (lim : Limits) (w : Worker) (c : Conn) (b : Bool) {v : Worker}
        → (b ≡ true → Booked (bit c.counted + 0) w v)
        → Booked (if b then bit c.counted else 0) w (if b then v else w)
    idle_or_not lim w c true h = Booked_cast (omega arith) (h refl)
    idle_or_not lim w c false h = Booked_refl w

sweep-Booked :
    (lim : Limits) (cs : List Conn) (w : Worker)
    → total unnumbered w.conns ≡ 0
    → Booked (swept_twice lim cs w) w (sweep lim cs w)
unfolding sweep swept_twice
sweep-Booked lim [] w numbered = Booked_refl w
sweep-Booked lim (c ∷ cs) w numbered =
    let one = sweep_one-Booked lim c.id w numbered in
    Booked_trans _ _ w (sweep_one lim c.id w) _ one
      (sweep-Booked lim cs (sweep_one lim c.id w) (omega (arith, numbered, one.numbered)))

pub on_timeout-Booked :
    (lim : Limits) (w : Worker)
    → total unnumbered w.conns ≡ 0
    → Booked (timed_twice lim w) w (on_timeout lim w)
unfolding on_timeout timed_twice post_timeout post
on_timeout-Booked lim w numbered =
    let w2 : Worker = record (post_timeout w) { tick = add64 w.tick 1 } in
    let first : Booked 0 w w2 = Booked_of 0 w w w2 refl refl (Booked_refl w) in
    let swept =
      Booked_trans 0 (swept_twice lim w2.conns w2) w w2 (sweep lim w2.conns w2) first
        (sweep-Booked lim w2.conns w2 numbered) in
    elim (Bool-cases (ltb 0 lim.idle_ticks && w2.tick % 10 == 0)) [
      | inl due ↦ rw due (Booked_cast (omega arith) swept)
      | inr not_due ↦ rw not_due first
    ]

hook_results-Booked :
    (lim : Limits) (rs : List HookResult) (w : Worker)
    → w.next_id < max_id
    → Sound rs w
    → total unnumbered w.conns ≡ 0
    → Booked 0 w (on_hook_results lim rs w)
unfolding on_hook_results
hook_results-Booked lim [] w room h numbered = Booked_refl w
hook_results-Booked lim (r ∷ rs) w room h numbered =
    let v = on_hook_result lim r w in
    let one = hook_result-Sound lim r rs w room h in
    let paid = hook_result-Booked lim r rs w (h.phase r.id) numbered in
    Booked_trans 0 0 w v _ paid (
      hook_results-Booked lim rs v (omega (arith, one.next_eq)) one.sound
        (omega (arith, numbered, paid.numbered)))

pub on_eventfd-Booked :
    (lim : Limits) (w : Worker)
    → w.next_id < max_id
    → Sound [] w
    → total unnumbered w.conns ≡ 0
    → Booked 0 w (on_eventfd lim w)
unfolding on_eventfd clear drain post_eventfd post
on_eventfd-Booked lim w room h numbered =
    let r = read (ud 0 (op_code Ops.eventfd)) in
    let w1 = post r w in
    let h1 = post-Sound Ops.eventfd r [] w refl (λ t. refl) h in
    let w2 : Worker = record w1 { br = record w1.br { notified = false; ready = [] } } in
    let h2 : Sound w.br.ready w2 = drained w1 h1 in
    Booked_trans 0 0 w w2 _ (Booked_of 0 w w w2 refl refl (Booked_refl w))
      (hook_results-Booked lim w.br.ready w2 room h2 numbered)

-- An accepted connection is counted, and shed or taken up; a failed accept counts as an error.
pub on_accept-Booked :
    (lim : Limits) (res : ℤ) (w : Worker)
    → is_zero res ≡ false
    → Booked (bit (is_neg res)) w (on_accept lim res w)
unfolding on_accept admit post
on_accept-Booked lim res w nonzero =
    let w1 : Worker = record w { accept_inflight = w.accept_inflight - 1 } in
    elim (Bool-cases (is_neg res)) [
      | inl failed ↦
          rw failed (record { charged = omega arith; living = omega arith; numbered = omega arith })
      | inr got ↦ rw got (
          if-rule (Booked 0 w) (leb lim.max_conns (length w1.conns))
            (λ _. record { charged = omega arith; living = omega arith; numbered = omega arith })
            (λ _.
              let c = new_conn lim (add64 w.next_id 1) res w.tick in
              record {
                charged = omega (arith, total-cons uncharged c w.conns);
                living = omega (arith, total-cons open_conn c w.conns);
                numbered =
                    ground (arith, numbered_fd res nonzero got, total-cons unnumbered c w.conns);
              }))
    ]
  where
    numbered_fd : (res : ℤ) → is_zero res ≡ false → is_neg res ≡ false → is_pos res ≡ true
    numbered_fd (pos zero) h k = cc h
    numbered_fd (pos (suc n)) h k = refl
    numbered_fd (negsuc n) h k = cc k
