-- ===== src/Uring/Post.antt =====
-- `post` of flashrelay/worker.go over the submission queue of internal/uring/uring.go: it returns,
-- and its entry is behind those that are pending.
use mathlib.Core.Path.{subst}
use flash_relay.Base.{
  ℕ, zero, suc, ◌+◌, ◌≤◌, ◌<◌, ◌≡◌, refl, List, ◌∷◌, ◌++◌, Option, none, some, inl, inr, arith, set,
  get_elem?, get_elem?-set, replicate, Option-cases,
}
use flash_relay.Base.Words.{add32}
use flash_relay.Uring.Prep.{Sqe, empty_sqe}
use flash_relay.Uring.Queue.{Ring, get_sqe, Enter, eintr, consumed, enter, submit, post_sqe}
use flash_relay.Uring.Slots.{pending, slot, IsRing, Handed, get_sqe-Handed, capped_size}

-- The entry was written to the place behind some number of pending ones.
pub Posted : (Sqe → Sqe) → Option (List Enter × Ring) → Type 0
Posted prep none = ⊥
Posted prep (some (left, r)) =
    (at : ℕ) × (pending r ≡ suc at) × (get_elem? r.sqes (slot r at) ≡ some (prep empty_sqe))

-- The interruptions are passed over.
enter-eintr :
    (n : ℕ) (more : List Enter) (r : Ring) → enter (replicate n eintr ++ more) r ≡ enter more r
unfolding enter
enter-eintr zero more r = refl
enter-eintr (suc n) more r = enter-eintr n more r

-- Where there is room, `post` is done at once.
fill-Posted :
    (k fuel : ℕ) (prep : Sqe → Sqe) (answers : List Enter) (r : Ring)
    → IsRing k r
    → pending r < r.sq_entries
    → Posted prep (post_sqe fuel prep answers r)
unfolding Posted post_sqe Handed
fill-Posted k fuel prep answers r h room = elim (Option-cases (get_sqe r)) [
  | inl e ↦
      let full : pending r ≡ r.sq_entries = subst (Handed k r) e (get_sqe-Handed k r h) in
      absurd (omega arith)
  | inr (got, e) ↦ filled fuel got e (subst (Handed k r) e (get_sqe-Handed k r h))
]
  where
    filled :
        (fuel : ℕ) (got : ℕ × Ring)
        → get_sqe r ≡ some got
        → Handed k r (some got)
        → Posted prep (post_sqe fuel prep answers r)
    filled zero got e (at, inside, _, more, _) =
        rw (e, post_sqe)
          (
            pending r,
            more,
            subst
                (λ i. get_elem? (set (got.1).sqes got.0 (prep empty_sqe)) i ≡ some (prep empty_sqe))
                at (get_elem?-set (got.1).sqes got.0 (prep empty_sqe) inside),
          )
    filled (suc fuel) got e (at, inside, _, more, _) =
        rw (e, post_sqe)
          (
            pending r,
            more,
            subst
                (λ i. get_elem? (set (got.1).sqes got.0 (prep empty_sqe)) i ≡ some (prep empty_sqe))
                at (get_elem?-set (got.1).sqes got.0 (prep empty_sqe) inside),
          )

-- On a ring that is well formed, `post` returns after one submit at most, once the kernel consumes
-- some of the pending entries, however often it is interrupted before; the entry that it wrote is
-- the last of the pending ones and holds what was prepared on an empty entry.
pub post_sqe-Posted :
    (k fuel n c : ℕ) (prep : Sqe → Sqe) (more : List Enter) (r : Ring)
    → IsRing k r
    → suc c ≤ r.sq_entries
    → Posted prep (post_sqe (suc fuel) prep (replicate n eintr ++ consumed (suc c) ∷ more) r)
unfolding post_sqe submit Handed
post_sqe-Posted k fuel n c prep more r h some_used = elim (Option-cases (get_sqe r)) [
  | inl e ↦
      let full : pending r ≡ r.sq_entries = subst (Handed k r) e (get_sqe-Handed k r h) in
      let r1 : Ring = record r { sq_tail = r.sq_tail_local } in
      let r2 : Ring = record r1 { to_submit = 0; sq_head = add32 r.sq_head (suc c) } in
      let size = capped_size k r h in
      let freed : pending r2 + suc c ≡ r.sq_entries = omega (arith, h.head_word, h.tail_word) in
      rw (e, post_sqe, enter-eintr n (consumed (suc c) ∷ more) r1)
        (unfold enter in
          fill-Posted k fuel prep more r2
            (record {
              power = h.power;
              mask = h.mask;
              order = h.order;
              sized = h.sized;
              indexed = h.indexed;
              head_word = omega arith;
              tail_word = h.tail_word;
              fits = omega arith;
            })
            (omega arith))
  | inr (got, e) ↦
      let (at, inside, _, last, _) = subst (Handed k r) e (get_sqe-Handed k r h) in
      rw (e, post_sqe)
        (unfold Posted in
          (
            pending r,
            last,
            subst
                (λ i. get_elem? (set (got.1).sqes got.0 (prep empty_sqe)) i ≡ some (prep empty_sqe))
                at (get_elem?-set (got.1).sqes got.0 (prep empty_sqe) inside),
          ))
]
