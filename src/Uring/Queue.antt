-- ===== src/Uring/Queue.antt =====
-- The submission and the completion ring of internal/uring/uring.go. Indices are uint32, and the
-- words that the kernel shares are fields as the ring last finds them.
use Prim.Native.Nat.{bit_and}
use flash_relay.Base.{
  ℕ, zero, suc, List, [], ◌∷◌, Option, none, some, leb, if◌then◌else◌, set, get_elem?, Bool,
}
use flash_relay.Base.Words.{add32, sub32}
use flash_relay.Worker.Loop.{Cqe}
use flash_relay.Uring.Prep.{Sqe, empty_sqe}

-- `sq_head` and `cq_tail` are the kernel's to move, `sq_tail` and `cq_head` the ring's.
pub record Ring : Type 0 where
  pub sqes : List Sqe
  pub sq_array : List ℕ
  pub cqes : List Cqe
  pub sq_head : ℕ
  pub sq_tail : ℕ
  pub cq_head : ℕ
  pub cq_tail : ℕ
  pub cq_overflow : ℕ
  pub sq_mask : ℕ
  pub cq_mask : ℕ
  pub sq_entries : ℕ
  pub cq_entries : ℕ
  pub sq_tail_local : ℕ
  pub cq_head_local : ℕ
  pub to_submit : ℕ
  pub no_drop : Bool

-- The index of the entry, which is zeroed, and the ring; `none` where the queue is full.
unfoldable pub get_sqe : Ring → Option (ℕ × Ring)
get_sqe r =
    if leb r.sq_entries (sub32 r.sq_tail_local r.sq_head)
    then none
    else let idx = bit_and r.sq_tail_local r.sq_mask in
      some (
        idx,
        record r {
          sqes = set r.sqes idx empty_sqe;
          sq_array = set r.sq_array idx idx;
          sq_tail_local = add32 r.sq_tail_local 1;
          to_submit = add32 r.to_submit 1;
        },
      )

-- How `io_uring_enter` returns: interrupted, with an error number, or having consumed entries.
pub data Enter : Type 0 where
  eintr : Enter
  errno consumed : ℕ → Enter

pub data Submitted : Type 0 where
  enter_failed : ℕ → Submitted
  submitted : ℕ → Submitted

-- The calls of `io_uring_enter` until one is not interrupted; `none` while the kernel has not
-- answered that far. An entry that the kernel consumes is behind its head.
unfoldable pub enter : List Enter → Ring → Option (Submitted × (List Enter × Ring))
enter [] r = none
enter (eintr ∷ more) r = enter more r
enter (errno e ∷ more) r = some (enter_failed e, (more, r))
enter (consumed n ∷ more) r =
    some (submitted n, (more, record r { to_submit = 0; sq_head = add32 r.sq_head n }))

unfoldable pub submit : List Enter → Ring → Option (Submitted × (List Enter × Ring))
submit answers r = enter answers (record r { sq_tail = r.sq_tail_local })

unfoldable pub cq_ready : Ring → ℕ
cq_ready r = sub32 r.cq_tail r.cq_head_local

unfoldable pub peek_cqe : ℕ → Ring → Option Cqe
peek_cqe i r = get_elem? r.cqes (bit_and (add32 r.cq_head_local i) r.cq_mask)

unfoldable pub cq_advance : ℕ → Ring → Ring
cq_advance n r =
    let head = add32 r.cq_head_local n in record r { cq_head_local = head; cq_head = head }

-- `post` of flashrelay/worker.go: fill the next entry, submitting until there is one. A submit that
-- fails is retried as well. The fuel is the number of submits; `none` also while the kernel has not
-- answered that far.
unfoldable pub post_sqe : ℕ → (Sqe → Sqe) → List Enter → Ring → Option (List Enter × Ring)
post_sqe zero prep answers r = elim (get_sqe r) [
  | none ↦ none
  | some got ↦ some (answers, record (got.1) { sqes = set (got.1).sqes got.0 (prep empty_sqe) })
]
post_sqe (suc fuel) prep answers r = elim (get_sqe r) [
  | none ↦ elim (submit answers r) [
    | none ↦ none
    | some done ↦ post_sqe fuel prep (done.1).0 (done.1).1
  ]
  | some got ↦ some (answers, record (got.1) { sqes = set (got.1).sqes got.0 (prep empty_sqe) })
]
