-- ===== src/Uring/Refine.antt =====
-- `Submit` of internal/uring/uring.go and `post` of flashrelay/worker.go do on the ring what a plain
-- queue of entries does.
use native.Mathlib.Nat.{eq-or-lt_of_le}
use flash_relay.Base.{
  ℕ, zero, suc, ◌^◌, ◌≤◌, ◌<◌, ◌≡◌, List, [], ◌∷◌, ◌++◌, Option, none, some, arith, true, false,
  leb, length, inl, inr,
}
use flash_relay.Uring.Prep.{Sqe, empty_sqe}
use flash_relay.Uring.Queue.{
  Ring, Enter, eintr, errno, consumed, Submitted, enter, submit, post_sqe,
}
use flash_relay.Uring.Slots.{pending, IsRing}
use flash_relay.Uring.Fifo.{
  Queues, enter_queue, post_queue, Modest, no_more, interrupted, refused, took, put, get_sqe-room,
  get_sqe-full, put-IsRing, put-Queues, taken-IsRing, taken-Queues,
}

-- Both go no further, or both go on with the same answers left, the ring being well formed and
-- holding what the queue holds.
pub data Refines (k : ℕ)
    : Option (List Enter × Ring) → Option (List Enter × List Sqe) → Type 0 where
  neither : Refines k none none
  both :
      {more : List Enter} {r : Ring} {xs : List Sqe}
      → IsRing k r
      → Queues xs r
      → Refines k (some (more, r)) (some (more, xs))

-- The same of a submit, which also reports alike.
pub data Entered (k limit : ℕ)
    : Option (Submitted × (List Enter × Ring))
      → Option (Submitted × (List Enter × List Sqe))
      → Type 0 where
  unanswered : Entered k limit none none
  answered :
      {how : Submitted} {more : List Enter} {r : Ring} {xs : List Sqe}
      → IsRing k r
      → Queues xs r
      → Modest limit more
      → Entered k limit (some (how, (more, r))) (some (how, (more, xs)))

published-IsRing :
    (k : ℕ) (r : Ring) → IsRing k r → IsRing k (record r { sq_tail = r.sq_tail_local })
published-IsRing k r h = record {
  power = h.power;
  mask = h.mask;
  order = h.order;
  sized = h.sized;
  indexed = h.indexed;
  head_word = h.head_word;
  tail_word = h.tail_word;
  fits = h.fits;
}

published-Queues :
    (xs : List Sqe) (r : Ring) → Queues xs r → Queues xs (record r { sq_tail = r.sq_tail_local })
published-Queues xs r q = record { count = q.count; through = q.through; each = q.each }

-- However the kernel answers, when it consumes no more than what is queued: a submit is refused, or
-- takes the oldest entries off the queue, as many as the kernel reports.
pub submit-Entered :
    (k limit : ℕ) (answers : List Enter) (r : Ring) (xs : List Sqe)
    → IsRing k r
    → Queues xs r
    → limit ≤ length xs
    → Modest limit answers
    → Entered k limit (submit answers r) (enter_queue answers xs)
unfolding submit enter enter_queue
submit-Entered k limit [] r xs h q enough no_more = unanswered
submit-Entered k limit (eintr ∷ more) r xs h q enough (interrupted rest) =
    submit-Entered k limit more r xs h q enough rest
submit-Entered k limit (errno e ∷ more) r xs h q enough (refused rest) =
    answered (published-IsRing k r h) (published-Queues xs r q) rest
submit-Entered k limit (consumed n ∷ more) r xs h q enough (took some_used rest) =
    answered (taken-IsRing k n r h (omega (arith, q.count)))
      (taken-Queues k n r xs h q (omega arith)) rest

joined :
    (k : ℕ) (s : Sqe) (answers : List Enter) (r : Ring) (xs : List Sqe)
    → IsRing k r
    → Queues xs r
    → pending r < r.sq_entries
    → Refines k (some (answers, put s r)) (some (answers, xs ++ s ∷ []))
joined k s answers r xs h q room = both (put-IsRing k s r h room) (put-Queues k s r xs h q room)

-- What is done after a submit may rely on what the submit keeps.
retry :
    {k limit : ℕ} {f : List Enter → Ring → Option (List Enter × Ring)}
    {g : List Enter → List Sqe → Option (List Enter × List Sqe)}
    → ((more : List Enter) (r : Ring) (xs : List Sqe)
        → IsRing k r
        → Queues xs r
        → Modest limit more
        → Refines k (f more r) (g more xs))
    → {x : Option (Submitted × (List Enter × Ring))}
    → {y : Option (Submitted × (List Enter × List Sqe))} → Entered k limit x y
    → Refines k
        (elim x [ none ↦ none | some done ↦ f (done.1).0 (done.1).1 ])
        (elim y [ none ↦ none | some done ↦ g (done.1).0 (done.1).1 ])
retry next unanswered = neither
retry next (answered {more = more} {r = r} {xs = xs} h q m) = next more r xs h q m

-- On a ring that is well formed, when the kernel consumes no more than a full queue at a time: `post`
-- does what the plain queue does, with every fuel and all answers of the kernel. An entry joins behind
-- those that are queued, entries leave at the front only and as many as the kernel took, and none is
-- changed or lost in between.
pub post_sqe-Refines :
    (k fuel : ℕ) (prep : Sqe → Sqe) (answers : List Enter) (r : Ring) (xs : List Sqe)
    → IsRing k r
    → Queues xs r
    → Modest (2 ^ k) answers
    → Refines k (post_sqe fuel prep answers r) (post_queue fuel (2 ^ k) (prep empty_sqe) answers xs)
unfolding post_sqe post_queue
post_sqe-Refines k zero prep answers r xs h q m = elim (eq-or-lt_of_le h.fits) [
  | inl full ↦
      let much : leb (2 ^ k) (length xs) ≡ true = ground (arith, full, h.power, q.count) in
      rw (get_sqe-full r (omega (arith, full)), much, post_sqe, post_queue) neither
  | inr room ↦
      let little : leb (2 ^ k) (length xs) ≡ false = ground (arith, room, h.power, q.count) in
      rw (get_sqe-room r room, little, post_sqe, post_queue)
        (joined k (prep empty_sqe) answers r xs h q room)
]
post_sqe-Refines k (suc fuel) prep answers r xs h q m = elim (eq-or-lt_of_le h.fits) [
  | inl full ↦
      let much : leb (2 ^ k) (length xs) ≡ true = ground (arith, full, h.power, q.count) in
      rw (get_sqe-full r (omega (arith, full)), much, post_sqe, post_queue)
        (retry (post_sqe-Refines k fuel prep)
          (submit-Entered k (2 ^ k) answers r xs h q (omega (arith, full, h.power, q.count)) m))
  | inr room ↦
      let little : leb (2 ^ k) (length xs) ≡ false = ground (arith, room, h.power, q.count) in
      rw (get_sqe-room r room, little, post_sqe, post_queue)
        (joined k (prep empty_sqe) answers r xs h q room)
]
