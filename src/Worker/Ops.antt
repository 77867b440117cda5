-- ===== src/Worker/Ops.antt =====
-- flashrelay/worker.go: operation codes and the packing of connection id and code in user_data.
use Prim.Native.Nat.{bit_and, bit_or}
use flash_relay.Base.{
  ℕ, ◌+◌, ◌*◌, ◌/◌, ◌%◌, ◌^◌, ◌<◌, ◌≡◌, refl, ap, ◌∙◌, Option, none, some, arith, ◌==◌,
  if◌then◌else◌,
}
use flash_relay.Base.Words.{shl64}
use flash_relay.Base.Bits.{bit_or_disjoint, bit_and_mask}

pub data Op : Type 0 where
  accept eventfd recv_req reply_client reply_more send_up reject_send : Op
  c2u_recv c2u_send u2c_recv u2c_send close timeout : Op

-- `iota + 1`
abbrev pub op_code : Op → ℕ
op_code accept = 1
op_code eventfd = 2
op_code recv_req = 3
op_code reply_client = 4
op_code reply_more = 5
op_code send_up = 6
op_code reject_send = 7
op_code c2u_recv = 8
op_code c2u_send = 9
op_code u2c_recv = 10
op_code u2c_send = 11
op_code close = 12
op_code timeout = 13

-- The case of the `switch` that a code selects; `none` where no case matches.
abbrev pub op_case : ℕ → Option Op
op_case n =
    if n == 1
    then some accept
    else if n == 2
    then some eventfd
    else if n == 3
    then some recv_req
    else if n == 4
    then some reply_client
    else if n == 5
    then some reply_more
    else if n == 6
    then some send_up
    else if n == 7
    then some reject_send
    else if n == 8
    then some c2u_recv
    else if n == 9
    then some c2u_send
    else if n == 10
    then some u2c_recv
    else if n == 11
    then some u2c_send
    else if n == 12
    then some close
    else if n == 13
    then some timeout
    else none

-- `id<<8 | uint64(op)`
unfoldable pub ud : ℕ → ℕ → ℕ
ud id op = bit_or (shl64 id 8) op

-- `u >> 8, uint8(u & 0xff)`
unfoldable pub unpack : ℕ → ℕ × ℕ
unpack u = (u / 2 ^ 8, bit_and u 0xff % 256)

-- The largest id that survives the shift.
abbrev pub max_id : ℕ
max_id = 2 ^ 56

-- The `switch` selects the case of every code that the engine puts in.
pub op_case-op_code : (op : Op) → op_case (op_code op) ≡ some op
op_case-op_code accept = refl
op_case-op_code _ = refl

ud-sum : (id op : ℕ) → op < 256 → ud id op ≡ id % max_id * 256 + op
unfolding ud
ud-sum id op h =
    let shifted : shl64 id 8 ≡ id % max_id * 2 ^ 8 = omega arith in
    rw shifted (bit_or_disjoint 8 (id % max_id) op h)

-- Packing loses the bits of the id above the 56th and nothing else.
pub unpack-ud : (id op : ℕ) → op < 256 → unpack (ud id op) ≡ (id % max_id, op)
unfolding unpack
unpack-ud id op h = rw (ud-sum id op h) (ground (arith, bit_and_mask 8 (id % max_id * 256 + op)))

pub op_code-lt : (op : Op) → op_code op < 256
op_code-lt accept = omega arith
op_code-lt _ = omega arith

-- The loop reads back the operation of every request that it posts.
pub unpack-op : (id : ℕ) (op : Op) → (unpack (ud id (op_code op))).1 ≡ op_code op
unpack-op id op = ap (λ (p : ℕ × ℕ). p.1) (unpack-ud id (op_code op) (op_code-lt op))

pub unpack-id : (id : ℕ) (op : Op) → id < max_id → (unpack (ud id (op_code op))).0 ≡ id
unpack-id id op h =
    ap (λ (p : ℕ × ℕ). p.0) (unpack-ud id (op_code op) (op_code-lt op)) ∙ omega arith
