-- ===== src/Worker/Pin.antt =====
-- flashrelay/worker.go: `pinToCore`.
use flash_relay.Base.{
  ℕ, zero, suc, ◌/◌, ◌%◌, ◌^◌, ◌≤◌, ◌<◌, ◌≡◌, refl, List, ltb, if◌then◌else◌, set, get_or,
  replicate, get_or-set_self, get_or-set_ne, arith, if-rule, ◌≢◌,
}
use flash_relay.Base.Int.{ℤ, pos, negsuc}

pub data Pin : Type 0 where
  unpinned panics : Pin
  affinity : List ℕ → Pin

abbrev clear_bytes : ℕ → List ℕ
clear_bytes n = replicate n 0

-- `set` is 128 bytes, and an index out of range panics.
unfoldable pub pin_to_core : ℤ → Pin
pin_to_core (negsuc n) = unpinned
pin_to_core (pos core) =
    if ltb (core / 8) 128
    then affinity (set (clear_bytes 128) (core / 8) (2 ^ (core % 8)))
    else panics

get_or-clear_bytes : (n i : ℕ) → get_or (clear_bytes n) i 0 ≡ 0
get_or-clear_bytes zero i = refl
get_or-clear_bytes (suc n) zero = refl
get_or-clear_bytes (suc n) (suc i) = get_or-clear_bytes n i

-- What the call may be given: the bit of the core and no other; from core 1024 on there is no call.
pub Pinned : ℕ → Pin → Type 0
Pinned core unpinned = ⊥
Pinned core panics = 1024 ≤ core
Pinned core (affinity mask) =
    (core < 1024)
    × (get_or mask (core / 8) 0 ≡ 2 ^ (core % 8))
    × ((i : ℕ) → core / 8 ≢ i → get_or mask i 0 ≡ 0)

-- A core that is not negative is pinned to its own bit of the mask and to no other, or is 1024 or
-- more, where the index is out of range and the worker panics.
pub pin_to_core-Pinned : (core : ℕ) → Pinned core (pin_to_core (pos core))
unfolding pin_to_core Pinned
pin_to_core-Pinned core =
    if-rule (Pinned core) (ltb (core / 8) 128)
      (λ fits. (
        ground (arith, fits),
        get_or-set_self (clear_bytes 128) (core / 8) (2 ^ (core % 8)) 0 (ground (arith, fits)),
        λ i other.
            rw (get_or-set_ne (clear_bytes 128) (2 ^ (core % 8)) 0 other)
              (get_or-clear_bytes 128 i),
      ))
      (λ wide. ground (arith, wide))
