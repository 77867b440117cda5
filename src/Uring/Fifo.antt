-- ===== src/Uring/Fifo.antt =====
-- The submission queue of internal/uring/uring.go and `post` of flashrelay/worker.go as a queue of
-- entries: what is in the ring, and what the calls are on that queue.
use Prim.Native.Nat.{bit_and}
use mathlib.Core.Path.{subst}
use native.Mathlib.Nat.{eq-or-lt_of_le}
use flash_relay.Base.{
  ℕ, zero, suc, ◌+◌, inl, inr, ◌≤◌, ◌<◌, ◌≡◌, ◌≢◌, ◌∙◌, ap, refl, sym, List, [], ◌∷◌, ◌++◌, Option,
  none, some, arith, true, false, leb, if◌then◌else◌, length, length-set, length-append,
  length-drop, drop, set, get_elem?, get_elem?-set, get_elem?-set_ne, get_elem?-append,
  get_elem?-snoc, get_elem?-drop,
}
use flash_relay.Base.Words.{add32}
use flash_relay.Uring.Prep.{Sqe, empty_sqe}
use flash_relay.Uring.Queue.{
  Ring, get_sqe, Enter, eintr, errno, consumed, Submitted, enter_failed, submitted,
}
use flash_relay.Uring.Slots.{
  pending, slot, IsRing, Handed, get_sqe-Handed, capped_size, slots_apart,
}

-- The kernel finds the i-th entry after its head through the index array.
pub record Queues (xs : List Sqe) (r : Ring) : Type 0 where
  pub count : pending r ≡ length xs
  pub through : (i : ℕ) → i < length xs → get_elem? r.sq_array (slot r i) ≡ some (slot r i)
  pub each : (i : ℕ) → i < length xs → get_elem? r.sqes (slot r i) ≡ get_elem? xs i

-- The submission queue as a list, the entry that the kernel takes next first.
unfoldable pub enter_queue : List Enter → List Sqe → Option (Submitted × (List Enter × List Sqe))
enter_queue [] xs = none
enter_queue (eintr ∷ more) xs = enter_queue more xs
enter_queue (errno e ∷ more) xs = some (enter_failed e, (more, xs))
enter_queue (consumed n ∷ more) xs = some (submitted n, (more, drop n xs))

-- An entry joins a queue of fewer than `limit`; a full one is submitted until it is shorter.
unfoldable pub post_queue : ℕ → ℕ → Sqe → List Enter → List Sqe → Option (List Enter × List Sqe)
post_queue zero limit s answers xs =
    if leb limit (length xs) then none else some (answers, xs ++ s ∷ [])
post_queue (suc fuel) limit s answers xs =
    if leb limit (length xs)
    then elim (enter_queue answers xs) [
      | none ↦ none
      | some done ↦ post_queue fuel limit s (done.1).0 (done.1).1
    ]
    else some (answers, xs ++ s ∷ [])

-- No answer claims more entries than the bound.
pub data Modest (limit : ℕ) : List Enter → Type 0 where
  no_more : Modest limit []
  interrupted : {more : List Enter} → Modest limit more → Modest limit (eintr ∷ more)
  refused : {e : ℕ} {more : List Enter} → Modest limit more → Modest limit (errno e ∷ more)
  took :
      {n : ℕ} {more : List Enter} → n ≤ limit → Modest limit more → Modest limit (consumed n ∷ more)

-- The ring once `GetSQE` has given its entry and that was filled in.
abbrev pub put : Sqe → Ring → Ring
put v r =
    let idx = bit_and r.sq_tail_local r.sq_mask in
    record r {
      sqes = set (set r.sqes idx empty_sqe) idx v;
      sq_array = set r.sq_array idx idx;
      sq_tail_local = add32 r.sq_tail_local 1;
      to_submit = add32 r.to_submit 1;
    }

abbrev pub grown : Ring → ℕ × Ring
grown r =
    let idx = bit_and r.sq_tail_local r.sq_mask in
    (
      idx,
      record r {
        sqes = set r.sqes idx empty_sqe;
        sq_array = set r.sq_array idx idx;
        sq_tail_local = add32 r.sq_tail_local 1;
        to_submit = add32 r.to_submit 1;
      },
    )

pub get_sqe-room : (r : Ring) → pending r < r.sq_entries → get_sqe r ≡ some (grown r)
unfolding get_sqe
get_sqe-room r room = let no : leb r.sq_entries (pending r) ≡ false = ground arith in rw no refl

pub get_sqe-full : (r : Ring) → r.sq_entries ≤ pending r → get_sqe r ≡ none
unfolding get_sqe
get_sqe-full r full = let yes : leb r.sq_entries (pending r) ≡ true = ground arith in rw yes refl

pub put-IsRing :
    (k : ℕ) (v : Sqe) (r : Ring) → IsRing k r → pending r < r.sq_entries → IsRing k (put v r)
unfolding Handed
put-IsRing k v r h room =
    let (_, _, _, _, r1) = subst (Handed k r) (get_sqe-room r room) (get_sqe-Handed k r h) in
    let idx = bit_and r.sq_tail_local r.sq_mask in
    record {
      power = h.power;
      mask = h.mask;
      order = h.order;
      sized = length-set (set r.sqes idx empty_sqe) idx v ∙ r1.sized;
      indexed = r1.indexed;
      head_word = h.head_word;
      tail_word = r1.tail_word;
      fits = r1.fits;
    }

-- What holds of the places of a list and of the one behind them holds of a list one longer.
each_snoc :
    (P : ℕ → Type 0) (xs : List Sqe) (v : Sqe)
    → ((i : ℕ) → i < length xs → P i)
    → P (length xs)
    → (i : ℕ) → i < length (xs ++ v ∷ [])
    → P i
each_snoc P xs v before last i h =
    let at_most : i ≤ length xs = omega (arith, length-append xs (v ∷ [])) in
    elim (eq-or-lt_of_le at_most) [ inl e ↦ subst P (sym e) last | inr less ↦ before i less ]

pub put-Queues :
    (k : ℕ) (v : Sqe) (r : Ring) (xs : List Sqe)
    → IsRing k r
    → Queues xs r
    → pending r < r.sq_entries
    → Queues (xs ++ v ∷ []) (put v r)
unfolding Handed
put-Queues k v r xs h q room =
    let (at, inside, _, more, _) =
      subst (Handed k r) (get_sqe-room r room) (get_sqe-Handed k r h) in
    let idx = bit_and r.sq_tail_local r.sq_mask in
    let within : idx < length r.sqes = omega (arith, inside, length-set r.sqes idx empty_sqe) in
    let last : idx ≡ slot r (length xs) = at ∙ ap (slot r) q.count in
    let apart : (i : ℕ) → i < length xs → idx ≢ slot r i = λ i less e.
      slots_apart k r i (length xs) h less (omega (arith, q.count, room)) (sym e ∙ last) in
    record {
      count = omega (arith, more, q.count, length-append xs (v ∷ []));
      through =
          each_snoc (λ i. get_elem? (set r.sq_array idx idx) (slot r i) ≡ some (slot r i)) xs v
            (λ i less.
              get_elem?-set_ne r.sq_array idx (slot r i) idx (apart i less) ∙ q.through i less)
            (subst (λ s. get_elem? (set r.sq_array idx idx) s ≡ some s) last
              (get_elem?-set r.sq_array idx idx (omega (arith, within, h.sized, h.indexed))));
      each =
          each_snoc
            (λ i.
              get_elem? (set (set r.sqes idx empty_sqe) idx v) (slot r i)
              ≡ get_elem? (xs ++ v ∷ []) i)
            xs v
            (λ i less.
              get_elem?-set_ne (set r.sqes idx empty_sqe) idx (slot r i) v (apart i less)
              ∙ get_elem?-set_ne r.sqes idx (slot r i) empty_sqe (apart i less)
              ∙ q.each i less
              ∙ sym (get_elem?-append xs (v ∷ []) i less))
            (subst
              (λ s.
                get_elem? (set (set r.sqes idx empty_sqe) idx v) s
                ≡ get_elem? (xs ++ v ∷ []) (length xs))
              last
              (get_elem?-set (set r.sqes idx empty_sqe) idx v inside ∙ sym (get_elem?-snoc xs v)));
    }

-- The ring once the kernel has taken n of the pending entries.
abbrev pub taken : ℕ → Ring → Ring
taken n r = record r { sq_tail = r.sq_tail_local; to_submit = 0; sq_head = add32 r.sq_head n }

pub taken-IsRing : (k n : ℕ) (r : Ring) → IsRing k r → n ≤ pending r → IsRing k (taken n r)
taken-IsRing k n r h some_used =
    let size = capped_size k r h in
    record {
      power = h.power;
      mask = h.mask;
      order = h.order;
      sized = h.sized;
      indexed = h.indexed;
      head_word = omega arith;
      tail_word = h.tail_word;
      fits = omega (arith, size, h.head_word, h.tail_word, h.fits);
    }

pub taken-Queues :
    (k n : ℕ) (r : Ring) (xs : List Sqe)
    → IsRing k r
    → Queues xs r
    → n ≤ length xs
    → Queues (drop n xs) (taken n r)
taken-Queues k n r xs h q some_used =
    let size = capped_size k r h in
    let moved : (i : ℕ) → slot r (n + i) ≡ slot (taken n r) i = λ i.
      let same : add32 r.sq_head (n + i) ≡ add32 (add32 r.sq_head n) i = omega arith in
      ap (λ x. bit_and x r.sq_mask) same in
    let shorter = length-drop n xs in
    record {
      count = omega (arith, size, shorter, h.head_word, h.tail_word, h.fits, q.count);
      through = λ i less.
          subst (λ s. get_elem? r.sq_array s ≡ some s) (moved i)
            (q.through (n + i) (omega (arith, shorter, less)));
      each = λ i less.
          ap (get_elem? r.sqes) (sym (moved i))
          ∙ q.each (n + i) (omega (arith, shorter, less))
          ∙ sym (get_elem?-drop n xs i);
    }
