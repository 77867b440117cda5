-- ===== src/Uring/Prep.antt =====
-- The submission queue entry of internal/uring/uring.go and the helpers that prepare one.
-- A field holds what its machine word holds: the conversions of the source are written out.
use flash_relay.Base.{ℕ, ◌-◌, ◌%◌, ◌^◌, Option, none, some, ltb, if◌then◌else◌, ◌==◌}
use flash_relay.Base.Int.{ℤ, pos, negsuc}
use flash_relay.Base.Words.{u32_mod, u64_mod}

-- `off`, `addr` and the words are unsigned, `fd` and `splice_fd_in` are int32.
pub record Sqe : Type 0 where
  pub opcode : ℕ
  pub flags : ℕ
  pub io_prio : ℕ
  pub fd : ℤ
  pub off : ℕ
  pub addr : ℕ
  pub len : ℕ
  pub op_flags : ℕ
  pub user_data : ℕ
  pub buf_index : ℕ
  pub personality : ℕ
  pub splice_fd_in : ℤ
  pub addr3 : ℕ

-- `SQE{}`
abbrev pub empty_sqe : Sqe
empty_sqe = record {
  opcode = 0;
  flags = 0;
  io_prio = 0;
  fd = pos 0;
  off = 0;
  addr = 0;
  len = 0;
  op_flags = 0;
  user_data = 0;
  buf_index = 0;
  personality = 0;
  splice_fd_in = pos 0;
  addr3 = 0;
}

-- `x` modulo 2^w, for a signed x
abbrev pub unsigned : ℕ → ℤ → ℕ
unsigned w (pos n) = n % 2 ^ w
unsigned w (negsuc n) = 2 ^ w - 1 - n % 2 ^ w

-- `int32(x)`
abbrev pub int32 : ℤ → ℤ
int32 x = let m = unsigned 32 x in if ltb m 2147483648 then pos m else negsuc (4294967295 - m)

-- A byte slice as the kernel sees it.
pub record Buffer : Type 0 where
  pub addr : ℕ
  pub len : ℕ

-- `&buf[0]` panics on an empty slice, which is `none` here.
abbrev pub with_buffer : Buffer → (ℕ → ℕ → Sqe) → Option Sqe
with_buffer b f = if b.len == 0 then none else some (f (b.addr % u64_mod) (b.len % u32_mod))

unfoldable pub prep_accept : Sqe → ℤ → ℕ → Sqe
prep_accept s fd ud = record s { opcode = 13; fd = int32 fd; user_data = ud }

unfoldable pub prep_accept_multishot : Sqe → ℤ → ℕ → Sqe
prep_accept_multishot s fd ud = record s { opcode = 13; fd = int32 fd; io_prio = 1; user_data = ud }

unfoldable pub prep_read : Sqe → ℤ → Buffer → ℕ → Option Sqe
prep_read s fd buf ud =
    with_buffer buf
      λ a n. record s { opcode = 22; fd = int32 fd; addr = a; len = n; user_data = ud }

unfoldable pub prep_recv : Sqe → ℤ → Buffer → ℕ → Option Sqe
prep_recv s fd buf ud =
    with_buffer buf
      λ a n. record s { opcode = 27; fd = int32 fd; addr = a; len = n; user_data = ud }

unfoldable pub prep_send : Sqe → ℤ → Buffer → ℕ → ℕ → Option Sqe
prep_send s fd buf flags ud = with_buffer buf λ a n. record s {
  opcode = 26;
  fd = int32 fd;
  addr = a;
  len = n;
  op_flags = flags;
  user_data = ud;
}

unfoldable pub prep_close : Sqe → ℤ → ℕ → Sqe
prep_close s fd ud = record s { opcode = 19; fd = int32 fd; user_data = ud }

-- `ts` is the address of the timespec.
unfoldable pub prep_timeout : Sqe → ℕ → ℕ → Sqe
prep_timeout s ts ud = record s {
  opcode = 11;
  fd = negsuc 0;
  addr = ts % u64_mod;
  len = 1;
  off = 0;
  user_data = ud;
}

unfoldable pub prep_splice : Sqe → ℤ → ℤ → ℤ → ℤ → ℕ → ℕ → ℕ → Sqe
prep_splice s fd_in off_in fd_out off_out nbytes flags ud = record s {
  opcode = 30;
  fd = int32 fd_out;
  off = unsigned 64 off_out;
  addr = unsigned 64 off_in;
  len = nbytes;
  op_flags = flags;
  splice_fd_in = int32 fd_in;
  user_data = ud;
}

unfoldable pub prep_poll_add : Sqe → ℤ → ℕ → ℕ → Sqe
prep_poll_add s fd events ud = record s {
  opcode = 6;
  fd = int32 fd;
  op_flags = events;
  user_data = ud;
}
