-- ===== src/Relay/Ops.antt =====
-- research/gate/cmd/relay-uring/main.go: the operation codes. Its `ud` and `unpack` are those of
-- flashrelay/worker.go.
use flash_relay.Base.{ℕ, ◌<◌, ◌%◌, ◌∙◌, ◌≡◌, refl, Option, none, some, arith, ◌==◌, if◌then◌else◌}
use flash_relay.Worker.Ops.{ud, unpack, unpack-ud, max_id}

pub data Op : Type 0 where
  accept eventfd recv_req send_up recv_resp send_client close : Op
  c2u_recv c2u_send u2c_recv u2c_send : Op
  c2u_splice_in c2u_splice_out u2c_splice_in u2c_splice_out timeout : Op

-- `iota + 1`
abbrev pub op_code : Op → ℕ
op_code accept = 1
op_code eventfd = 2
op_code recv_req = 3
op_code send_up = 4
op_code recv_resp = 5
op_code send_client = 6
op_code close = 7
op_code c2u_recv = 8
op_code c2u_send = 9
op_code u2c_recv = 10
op_code u2c_send = 11
op_code c2u_splice_in = 12
op_code c2u_splice_out = 13
op_code u2c_splice_in = 14
op_code u2c_splice_out = 15
op_code timeout = 16

-- The case of the `switch` that a code selects; `none` where no case matches.
abbrev pub op_case : ℕ → Option Op
op_case n =
    if n == 1
    then some accept
    else if n == 2
    then some eventfd
    else if n == 3
    then some recv_req
    else if n == 4
    then some send_up
    else if n == 5
    then some recv_resp
    else if n == 6
    then some send_client
    else if n == 7
    then some close
    else if n == 8
    then some c2u_recv
    else if n == 9
    then some c2u_send
    else if n == 10
    then some u2c_recv
    else if n == 11
    then some u2c_send
    else if n == 12
    then some c2u_splice_in
    else if n == 13
    then some c2u_splice_out
    else if n == 14
    then some u2c_splice_in
    else if n == 15
    then some u2c_splice_out
    else if n == 16
    then some timeout
    else none

pub op_case-op_code : (op : Op) → op_case (op_code op) ≡ some op
op_case-op_code accept = refl
op_case-op_code _ = refl

pub op_code-lt : (op : Op) → op_code op < 256
op_code-lt accept = omega arith
op_code-lt _ = omega arith

-- The loop reads back what a request was tagged with.
pub unpack-tag : (id : ℕ) (op : Op) → id < max_id → unpack (ud id (op_code op)) ≡ (id, op_code op)
unpack-tag id op h =
    let same : id % max_id ≡ id = omega arith in
    unpack-ud id (op_code op) (op_code-lt op) ∙ rw same refl
