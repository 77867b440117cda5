-- ===== src/Bridge/Wakeup.antt =====
-- The bridge of flashrelay/worker.go under every interleaving of the hook goroutines with the ring
-- worker: the locked append, the swap of the flag and the write of the eventfd are separate steps
-- of a producer, and so are the read of the eventfd, the clear and the drain of the worker.
use flash_relay.Base.{
  ℕ, suc, ◌+◌, ◌-◌, ◌<◌, ◌≡◌, ◌⊎◌, refl, sym, ◌∙◌, ap, false, List, [], ◌∷◌, ◌++◌, if◌then◌else◌,
  ltb, arith, inl, inr, if-rule,
}
use mathlib.Core.List.{append_assoc, append-nil}
use flash_relay.Bridge.{Bridge, append, swap, signal, clear, drain}

-- Where the worker is: blocked on the eventfd, about to clear the flag, or about to drain.
pub data At : Type 0 where
  waiting woken cleared : At

pub data Action {ℓ} (R : Type ℓ) : Type ℓ where
  appends : R → Action R
  swaps writes reads clears drains : Action R

-- The bridge, with the producers that have appended and not swapped, those that have swapped and
-- must write, the worker's place, and what was pushed and drained so far, oldest first.
pub record Wakeup {ℓ} (R : Type ℓ) : Type ℓ where
  pub bridge : Bridge R
  pub swapping : ℕ
  pub writing : ℕ
  pub at : At
  pub pushed : List R
  pub drained : List R

module _ {ℓ} {R : Type ℓ} where
  -- An action that its actor cannot take changes nothing.
  unfoldable pub act : Action R → Wakeup R → Wakeup R
  act (appends r) s = record s {
    bridge = append r s.bridge;
    swapping = suc s.swapping;
    pushed = s.pushed ++ r ∷ [];
  }
  act swaps s =
      if ltb 0 s.swapping
      then record s {
        bridge = (swap s.bridge).1;
        swapping = s.swapping - 1;
        writing = if (swap s.bridge).0 then s.writing else suc s.writing;
      }
      else s
  act writes s =
      if ltb 0 s.writing then record s { bridge = signal s.bridge; writing = s.writing - 1 } else s
  act reads s = elim s.at [
    | waiting ↦
        if ltb 0 s.bridge.efd
        then record s { bridge = record s.bridge { efd = 0 }; at = woken }
        else s
    | _ ↦ s
  ]
  act clears s = elim s.at [ woken ↦ record s { bridge = clear s.bridge; at = cleared } | _ ↦ s ]
  act drains s = elim s.at [
    | cleared ↦
        let (rs, b) = drain s.bridge in
        record s { bridge = b; at = waiting; drained = s.drained ++ rs }
    | _ ↦ s
  ]

  unfoldable pub acts : List (Action R) → Wakeup R → Wakeup R
  acts [] s = s
  acts (a ∷ more) s = acts more (act a s)

  abbrev pub idle : Wakeup R
  idle = record {
    bridge = record { ready = []; notified = false; efd = 0 };
    swapping = 0;
    writing = 0;
    at = waiting;
    pushed = [];
    drained = [];
  }

-- Where the worker has a drain ahead of it.
abbrev pub will_drain : At → ℕ
will_drain waiting = 0
will_drain woken = 1
will_drain cleared = 1

-- Where the worker has a clear ahead of it.
abbrev pub will_clear : At → ℕ
will_clear woken = 1
will_clear _ = 0

At-cases : (a : At) → (a ≡ waiting) ⊎ ((a ≡ woken) ⊎ (a ≡ cleared))
At-cases waiting = inl refl
At-cases woken = inr (inl refl)
At-cases cleared = inr (inr refl)

module _ {ℓ} {R : Type ℓ} where
  -- Nothing is lost or reordered, whatever is ready has a wakeup or a drain under way, and the
  -- flag is up only while a wakeup or a clear is.
  pub record IsLive (s : Wakeup R) : Type ℓ where
    pub kept : s.drained ++ s.bridge.ready ≡ s.pushed
    pub covered :
        (s.bridge.ready ≡ []) ⊎ (0 < s.swapping + s.writing + s.bridge.efd + will_drain s.at)
    pub raised : (s.bridge.notified ≡ false) ⊎ (0 < s.writing + s.bridge.efd + will_clear s.at)

  act-IsLive : (a : Action R) (s : Wakeup R) → IsLive s → IsLive (act a s)
  unfolding act append swap signal clear drain
  act-IsLive (appends r) s h = record {
    kept =
        sym (append_assoc s.drained s.bridge.ready (r ∷ []))
        ∙ ap (λ (l : List R). l ++ r ∷ []) h.kept;
    covered = inr (omega arith);
    raised = h.raised;
  }
  act-IsLive swaps s h =
      if-rule IsLive (ltb 0 s.swapping)
        (λ some_swap. record {
          kept = h.kept;
          covered = inr (ground arith);
          raised = inr (ground arith);
        })
        (λ _. h)
  act-IsLive writes s h =
      if-rule IsLive (ltb 0 s.writing)
        (λ some_write. record {
          kept = h.kept;
          covered = inr (ground arith);
          raised = inr (ground arith);
        })
        (λ _. h)
  act-IsLive reads s h = elim (At-cases s.at) [
    | inl e ↦
        rw (e, act)
          (if-rule IsLive (ltb 0 s.bridge.efd)
            (λ _. record { kept = h.kept; covered = inr (omega arith); raised = inr (omega arith) })
            (λ _. h))
    | inr (inl e) ↦ rw (e, act) h
    | inr (inr e) ↦ rw (e, act) h
  ]
  act-IsLive clears s h = elim (At-cases s.at) [
    | inl e ↦ rw (e, act) h
    | inr (inl e) ↦
        rw (e, act) (record { kept = h.kept; covered = inr (omega arith); raised = inl refl })
    | inr (inr e) ↦ rw (e, act) h
  ]
  act-IsLive drains s h = elim (At-cases s.at) [
    | inl e ↦ rw (e, act) h
    | inr (inl e) ↦ rw (e, act) h
    | inr (inr e) ↦
        let r : (s.bridge.notified ≡ false) ⊎ (0 < s.writing + s.bridge.efd + will_clear waiting) =
          raised_on e h.raised in
        rw (e, act)
          (record {
            kept = append-nil (s.drained ++ s.bridge.ready) ∙ h.kept;
            covered = inl refl;
            raised = r;
          })
  ]
    where
      raised_on :
          s.at ≡ cleared
          → (s.bridge.notified ≡ false) ⊎ (0 < s.writing + s.bridge.efd + will_clear s.at)
          → (s.bridge.notified ≡ false) ⊎ (0 < s.writing + s.bridge.efd + will_clear waiting)
      raised_on e (inl down) = inl down
      raised_on e (inr up) = inr (rw (sym (ap will_clear e)) up)

  acts-IsLive : (es : List (Action R)) (s : Wakeup R) → IsLive s → IsLive (acts es s)
  unfolding acts
  acts-IsLive [] s h = h
  acts-IsLive (a ∷ more) s h = acts-IsLive more (act a s) (act-IsLive a s h)

  -- Under every interleaving, the results drained and those ready are all the results pushed, in
  -- the order of their appends; a result that is ready has a producer's swap or write, an unread
  -- eventfd count or a drain of the worker still ahead; and the flag is up only while a write, an
  -- unread count or a clear is.
  pub no_lost_wakeup : (es : List (Action R)) → IsLive (acts es idle)
  no_lost_wakeup es =
      acts-IsLive es idle (record { kept = refl; covered = inl refl; raised = inl refl })
