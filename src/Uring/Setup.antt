-- ===== src/Uring/Setup.antt =====
-- `New` and `Close` of internal/uring/uring.go: the fd and the mappings of a ring.
use mathlib.Core.Path.{subst}
use flash_relay.Base.{
  ℕ, zero, sym, suc, ◌-◌, ◌*◌, ◌%◌, ◌≡◌, ◌≢◌, refl, Bool, true, false, not, ◌&&◌, List, ◌∷◌, Option,
  none, some, ltb, ◌==◌, if◌then◌else◌, arith,
}
use flash_relay.Base.Words.{u32_mod, add32}

-- What `io_uring_setup` fills in, as far as `New` reads it.
pub record Params : Type 0 where
  pub sq_entries : ℕ
  pub cq_entries : ℕ
  pub array_offset : ℕ
  pub cqes_offset : ℕ
  pub single_mmap : Bool
  pub no_drop : Bool

-- How the kernel answers: the fd and the parameters, or an error; and which mappings succeed.
pub record Answers : Type 0 where
  pub setup : Option (ℕ × Params)
  pub map_sq : Bool
  pub map_cq : Bool
  pub map_sqes : Bool

pub data MapCall : Type 0 where
  mmap : ℕ → ℕ → MapCall
  munmap close : MapCall

-- What a process holds, and its calls, newest first.
pub record Memory : Type 0 where
  pub fds : ℕ
  pub maps : ℕ
  pub calls : List MapCall

-- The fields of a ring that `Close` reads: a mapping is there or nil.
pub record Mapped : Type 0 where
  pub fd : ℕ
  pub sq_ring : Bool
  pub cq_ring : Bool
  pub sqe_mmap : Bool
  pub single_mmap : Bool
  pub no_drop : Bool

pub data NewError : Type 0 where
  setup_failed map_sq_failed map_cq_failed map_sqes_failed : NewError

pub data NewRing : Type 0 where
  failed : NewError → NewRing
  ring : Mapped → NewRing

abbrev pub map_at : ℕ → ℕ → Bool → Memory → Memory
map_at offset len done m = record m {
  maps = if done then suc m.maps else m.maps;
  calls = mmap offset len ∷ m.calls;
}

abbrev pub unmap : Memory → Memory
unmap m = record m { maps = m.maps - 1; calls = munmap ∷ m.calls }

abbrev pub close_fd : Memory → Memory
close_fd m = record m { fds = m.fds - 1; calls = close ∷ m.calls }

-- The sizes of the two ring mappings, uint32 sums; one mapping for both is as large as the larger.
abbrev pub sq_bytes : Params → ℕ
sq_bytes p = add32 p.array_offset (p.sq_entries * 4 % u32_mod)

abbrev pub cq_bytes : Params → ℕ
cq_bytes p = add32 p.cqes_offset (p.cq_entries * 16 % u32_mod)

abbrev pub ring_bytes : Params → ℕ
ring_bytes p = if p.single_mmap && ltb (sq_bytes p) (cq_bytes p) then cq_bytes p else sq_bytes p

unfoldable pub close_ring : Mapped → Memory → Memory
close_ring r m =
    let m1 = if r.sqe_mmap then unmap m else m in
    let m2 = if not r.single_mmap && r.cq_ring then unmap m1 else m1 in
    let m3 = if r.sq_ring then unmap m2 else m2 in if r.fd == 0 then m3 else close_fd m3

-- The last mapping, behind those of the rings.
unfoldable pub map_entries : Bool → Params → Mapped → Memory → NewRing × Memory
map_entries done p r m =
    let m1 = map_at 268435456 (p.sq_entries * 64) done m in
    if done
    then (ring (record r { sqe_mmap = true }), m1)
    else (failed map_sqes_failed, close_ring r m1)

unfoldable pub new_ring : Answers → Memory → NewRing × Memory
new_ring a m = elim a.setup [
  | none ↦ (failed setup_failed, m)
  | some got ↦
      let p = got.1 in
      let m1 = map_at 0 (ring_bytes p) a.map_sq (record m { fds = suc m.fds }) in
      let r : Mapped = record {
        fd = got.0;
        sq_ring = true;
        cq_ring = false;
        sqe_mmap = false;
        single_mmap = p.single_mmap;
        no_drop = p.no_drop;
      } in
      if not a.map_sq
      then (failed map_sq_failed, close_fd m1)
      else if p.single_mmap
      then map_entries a.map_sqes p (record r { cq_ring = true }) m1
      else let m2 = map_at 134217728 (cq_bytes p) a.map_cq m1 in
        if not a.map_cq
        then (failed map_cq_failed, close_ring r m2)
        else map_entries a.map_sqes p (record r { cq_ring = true }) m2
]

-- What the process held before is what it holds again: at once on an error, and once the ring is
-- closed on success.
pub Released : Memory → NewRing × Memory → Type 0
Released m (failed e, after) = (after.fds ≡ m.fds) × (after.maps ≡ m.maps)
Released m (ring r, after) =
    ((close_ring r after).fds ≡ m.fds) × ((close_ring r after).maps ≡ m.maps)

-- The kernel's answers, field by field.
abbrev answers : ℕ → Params → Bool → Bool → Bool → Bool → Answers
answers fd p single sq cq sqes = record {
  setup = some (fd, record p { single_mmap = single });
  map_sq = sq;
  map_cq = cq;
  map_sqes = sqes;
}

every_answer :
    (fd : ℕ) (p : Params) (single sq cq sqes : Bool) (m : Memory)
    → (fd == 0) ≡ false
    → Released m (new_ring (answers fd p single sq cq sqes) m)
unfolding new_ring map_entries close_ring Released
every_answer fd p true false cq sqes m h = (omega arith, omega arith)
every_answer fd p false false cq sqes m h = (omega arith, omega arith)
every_answer fd p true true cq true m h = rw h (omega arith, omega arith)
every_answer fd p true true cq false m h = rw h (omega arith, omega arith)
every_answer fd p false true false sqes m h = rw h (omega arith, omega arith)
every_answer fd p false true true true m h = rw h (omega arith, omega arith)
every_answer fd p false true true false m h = rw h (omega arith, omega arith)

-- Whatever the kernel answers, where the fd that it gives is not 0: a ring that cannot be made leaves
-- no fd and no mapping behind, and closing one that was made releases all that it took.
pub new_ring-Released :
    (a : Answers) (fd : ℕ) (p : Params) (m : Memory)
    → a.setup ≡ some (fd, p)
    → fd ≢ 0
    → Released m (new_ring a m)
new_ring-Released a fd p m e other =
    subst (λ s. Released m (new_ring (record a { setup = s }) m)) (sym e)
      (every_answer fd p p.single_mmap a.map_sq a.map_cq a.map_sqes m (nonzero fd other))
  where
    nonzero : (n : ℕ) → n ≢ 0 → (n == 0) ≡ false
    nonzero zero h = absurd (h refl)
    nonzero (suc n) h = ground arith
