-- ===== src/Config/Ready.antt =====
-- What `defaults` and `New` of flashrelay/flashrelay.go promise the workers.
use flash_relay.Base.{ℕ, zero, suc, ◌≤◌, ◌<◌, ◌≡◌, refl, true, arith}
use flash_relay.Base.Int.{ℤ, pos, negsuc, is_pos, pos_part, neg_part}
use flash_relay.Config.{Config, default_to, defaults, limits_of}

-- A configuration that a worker can run on: nothing that it divides its memory by is 0, and the
-- first read fits the cap.
pub record IsReady (c : Config) : Type 0 where
  pub some_workers : is_pos c.workers ≡ true
  pub some_hooks : is_pos c.hook_workers ≡ true
  pub some_ring : 0 < c.ring_size
  pub first_fits : (limits_of c).initial_req_len ≤ (limits_of c).max_req_len
  pub some_first : 0 < (limits_of c).initial_req_len
  pub some_buf : 0 < (limits_of c).buf_size
  pub some_conns : 0 < (limits_of c).max_conns
  pub some_batch : 0 < (limits_of c).accept_batch

default_to-is_pos : (d : ℕ) (x : ℤ) → 0 < d → is_pos (default_to d x) ≡ true
default_to-is_pos zero x h = absurd (omega arith)
default_to-is_pos (suc d) (pos zero) h = refl
default_to-is_pos (suc d) (pos (suc n)) h = refl
default_to-is_pos (suc d) (negsuc n) h = refl

default_to-pos_part : (d : ℕ) (x : ℤ) → 0 < d → 0 < pos_part (default_to d x)
default_to-pos_part d (pos zero) h = h
default_to-pos_part d (pos (suc n)) h = omega arith
default_to-pos_part d (negsuc n) h = h

default_to-neg_part : (d : ℕ) (x : ℤ) → neg_part (default_to d x) ≡ 0
default_to-neg_part d (pos zero) = refl
default_to-neg_part d (pos (suc n)) = refl
default_to-neg_part d (negsuc n) = refl

pub defaults-IsReady : (num_cpu : ℕ) (c : Config) → 0 < num_cpu → IsReady (defaults num_cpu c)
unfolding defaults limits_of
defaults-IsReady n c h =
    let first = default_to-pos_part 64 c.initial_req_len (omega arith) in
    let cap = default_to-pos_part 8192 c.max_req_len (omega arith) in
    record {
      some_workers = default_to-is_pos n c.workers h;
      some_hooks = default_to-is_pos 256 c.hook_workers (omega arith);
      some_ring = ground arith;
      first_fits =
          ground (
            arith,
            default_to-neg_part 64 c.initial_req_len,
            default_to-neg_part 8192 c.max_req_len,
          );
      some_first = first;
      some_buf = default_to-pos_part 16384 c.buf_size (omega arith);
      some_conns = default_to-pos_part 50000 c.max_conns (omega arith);
      some_batch = default_to-pos_part 64 c.accept_batch (omega arith);
    }
