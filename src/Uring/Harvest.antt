-- ===== src/Uring/Harvest.antt =====
-- The completion queue of internal/uring/uring.go: what `CQAdvance` leaves to be read.
use flash_relay.Base.{ℕ, ◌+◌, ◌≤◌, ◌<◌, ◌≡◌, ap, get_elem?, arith}
use Prim.Native.Nat.{bit_and}
use flash_relay.Base.Words.{add32, u32_mod}
use flash_relay.Uring.Queue.{Ring, cq_ready, peek_cqe, cq_advance}

-- Of the completions that are ready, `CQAdvance` drops the first n and no other: as many fewer are
-- ready, and each of the rest is read as before, n places further to the front.
pub cq_advance-drops :
    (n : ℕ) (r : Ring)
    → r.cq_head_local < u32_mod
    → r.cq_tail < u32_mod
    → n ≤ cq_ready r
    → (cq_ready (cq_advance n r) + n ≡ cq_ready r)
      × ((i : ℕ) → peek_cqe i (cq_advance n r) ≡ peek_cqe (n + i) r)
unfolding cq_ready cq_advance peek_cqe
cq_advance-drops n r head tail some_ready = (
  omega arith,
  λ i.
      let moved : add32 (add32 r.cq_head_local n) i ≡ add32 r.cq_head_local (n + i) = omega arith in
      ap (λ x. get_elem? r.cqes (bit_and x r.cq_mask)) moved,
)
