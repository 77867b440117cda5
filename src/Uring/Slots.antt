-- ===== src/Uring/Slots.antt =====
-- The submission queue of internal/uring/uring.go never hands out an entry that the kernel still has.
use Prim.Native.Nat.{bit_and}
use mathlib.Core.Path.{subst}
use mathlib.Core.Option.{some-injective}
use native.Mathlib.Nat.{mod-mod_of_dvd, mod-lt, pow-le-pow_right, one-le-pow}
use flash_relay.Base.{
  ℕ, suc, ◌+◌, ◌-◌, ◌%◌, ◌^◌, ◌≤◌, ◌<◌, ◌≡◌, ◌≢◌, ◌∙◌, ap, refl, sym, Option, none, some, arith,
  leb, if-rule, length, length-set, get_elem?, get_elem?-set_ne,
}
use flash_relay.Base.Words.{add32, sub32, u32_mod}
use flash_relay.Base.Bits.{bit_and_mask}
use flash_relay.Base.Modulo.{two_pow-dvd, mod_apart}
use flash_relay.Uring.Prep.{empty_sqe}
use flash_relay.Uring.Queue.{Ring, get_sqe}

-- How many entries are handed out and not consumed, and where the i-th of them is.
abbrev pub pending : Ring → ℕ
pending r = sub32 r.sq_tail_local r.sq_head

abbrev pub slot : Ring → ℕ → ℕ
slot r i = bit_and (add32 r.sq_head i) r.sq_mask

-- A ring of 2^k entries, as the kernel sets it up and the ring keeps it.
pub record IsRing (k : ℕ) (r : Ring) : Type 0 where
  pub power : r.sq_entries ≡ 2 ^ k
  pub mask : r.sq_mask ≡ 2 ^ k - 1
  pub order : k ≤ 31
  pub sized : length r.sqes ≡ r.sq_entries
  pub indexed : length r.sq_array ≡ r.sq_entries
  pub head_word : r.sq_head < u32_mod
  pub tail_word : r.sq_tail_local < u32_mod
  pub fits : pending r ≤ r.sq_entries

-- What `GetSQE` promises: it refuses a full queue only; otherwise the entry is that behind the
-- pending ones, within the ring, and one more is pending.
unfoldable pub Handed : ℕ → Ring → Option (ℕ × Ring) → Type 0
Handed k r none = pending r ≡ r.sq_entries
Handed k r (some got) =
    (got.0 ≡ slot got.1 (pending r))
    × (got.0 < length (got.1).sqes)
    × ((got.1).sq_head ≡ r.sq_head)
    × (pending got.1 ≡ suc (pending r))
    × IsRing k got.1

-- A word's place in the ring.
masked : (k : ℕ) (r : Ring) (x : ℕ) → IsRing k r → bit_and (x % u32_mod) r.sq_mask ≡ x % 2 ^ k
masked k r x h =
    ap (bit_and (x % u32_mod)) h.mask
    ∙ bit_and_mask k (x % u32_mod)
    ∙ mod-mod_of_dvd (2 ^ k) x (two_pow-dvd k 32 (omega (arith, h.order)))

within : (k : ℕ) (r : Ring) (x : ℕ) → IsRing k r → bit_and (x % u32_mod) r.sq_mask < length r.sqes
within k r x h =
    omega (arith, masked k r x h, h.sized, h.power, mod-lt x (one-le-pow k 2 (omega arith)))

pub capped_size : (k : ℕ) (r : Ring) → IsRing k r → r.sq_entries ≤ 2147483648
capped_size k r h = omega (arith, h.power, pow-le-pow_right {n = 2} (omega arith) h.order)

-- Two entries that are pending at the same time, or the next to be handed out and one that is pending.
pub slots_apart :
    (k : ℕ) (r : Ring) (i j : ℕ) → IsRing k r → i < j → j < r.sq_entries → slot r i ≢ slot r j
slots_apart k r i j h less inside same =
    mod_apart (2 ^ k) (r.sq_head + i) (r.sq_head + j) (omega arith) (omega (arith, h.power))
      (sym (masked k r (r.sq_head + i) h) ∙ same ∙ masked k r (r.sq_head + j) h)

-- On a ring that is well formed, `GetSQE` refuses only where every entry is pending, and otherwise
-- hands out the entry behind the pending ones, which lies within the ring, the kernel's head stays, and
-- the ring stays well formed with one more entry pending.
pub get_sqe-Handed : (k : ℕ) (r : Ring) → IsRing k r → Handed k r (get_sqe r)
unfolding get_sqe Handed
get_sqe-Handed k r h =
    if-rule (Handed k r) (leb r.sq_entries (pending r)) (λ full. ground (arith, full, h.fits))
      (λ room.
        let idx = bit_and r.sq_tail_local r.sq_mask in
        let at_tail : add32 r.sq_head (pending r) ≡ r.sq_tail_local =
          omega (arith, h.head_word, h.tail_word) in
        let less : pending r < r.sq_entries = ground (arith, room) in
        let size = capped_size k r h in
        let more : sub32 (add32 r.sq_tail_local 1) r.sq_head ≡ suc (pending r) =
          omega (arith, h.head_word, h.tail_word) in
        (
          ap (λ t. bit_and t r.sq_mask) (sym at_tail),
          omega (
            arith,
            length-set r.sqes idx empty_sqe,
            subst (λ t. bit_and t r.sq_mask < length r.sqes) at_tail
                (within k r (r.sq_head + pending r) h),
          ),
          refl,
          more,
          record {
            power = h.power;
            mask = h.mask;
            order = h.order;
            sized = length-set r.sqes idx empty_sqe ∙ h.sized;
            indexed = length-set r.sq_array idx idx ∙ h.indexed;
            head_word = h.head_word;
            tail_word = omega arith;
            fits = omega (arith, more);
          },
        ))

-- What is left alone where an entry is handed out: the i-th pending one.
unfoldable pub Untouched : ℕ → Ring → ℕ × Ring → Type 0
Untouched i r got =
    (slot r i ≢ got.0)
    × (slot got.1 i ≡ slot r i)
    × (get_elem? (got.1).sqes (slot r i) ≡ get_elem? r.sqes (slot r i))
    × (get_elem? (got.1).sq_array (slot r i) ≡ get_elem? r.sq_array (slot r i))

-- On a ring that is well formed, the entry that `GetSQE` hands out is none of those that are pending,
-- and each of them stays where it was, with its contents and its index.
pub get_sqe-Untouched :
    (k i : ℕ) (r : Ring) (got : ℕ × Ring)
    → IsRing k r
    → get_sqe r ≡ some got
    → i < pending r
    → Untouched i r got
unfolding get_sqe Untouched
get_sqe-Untouched k i r got h =
    if-rule (λ (o : Option (ℕ × Ring)). o ≡ some got → i < pending r → Untouched i r got)
      (leb r.sq_entries (pending r)) (λ _ e _. absurd (cc e))
      (λ room e less.
        let idx = bit_and r.sq_tail_local r.sq_mask in
        let at_tail : add32 r.sq_head (pending r) ≡ r.sq_tail_local =
          omega (arith, h.head_word, h.tail_word) in
        let next : slot r (pending r) ≡ idx = ap (λ t. bit_and t r.sq_mask) at_tail in
        let apart : slot r i ≢ idx =
          λ same. slots_apart k r i (pending r) h less (ground (arith, room)) (same ∙ sym next) in
        subst (Untouched i r) (some-injective _ got e) (
          apart,
          refl,
          get_elem?-set_ne r.sqes idx (slot r i) empty_sqe (λ same. apart (sym same)),
          get_elem?-set_ne r.sq_array idx (slot r i) idx (λ same. apart (sym same)),
        ))
