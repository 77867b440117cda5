-- ===== src/Worker/Frame.antt =====
-- What the closures and handlers of flashrelay/worker.go leave alone: the room taken under the
-- connection cap, and the accepts in flight.
pub mod Handle
use flash_relay.Base.{
  ℕ, true, false, suc, ◌+◌, ◌-◌, ◌≤◌, ◌<◌, ◌≡◌, refl, ap, List, [], ◌∷◌, none, some, arith, ◌==◌,
  if◌then◌else◌, length, leb, Bool-cases, Option-cases, inl, inr,
}
use flash_relay.Base.Int.{ℤ}
use flash_relay.Worker.State.{Limits, Conn, Worker, Request, read, timer, recv, send, close}
use flash_relay.Worker.Ops
use flash_relay.Worker.Ops.{Op, op_code, ud, unpack, unpack-op}
use flash_relay.Worker.Conns.{put, delete, length-put, length-delete_le}
use flash_relay.Base.Sums.{tally, tally-cons}
use flash_relay.Worker.Kernel.{user_data}
use flash_relay.Worker.Footprint.{Contains, IsTransfer, recv_req}
use flash_relay.Worker.Actions.{
  fds_to_close, count_dead, count_errors, post, syscall, write, post_close, close_conn,
  start_duplex, fail, post_recv_req, grow_req, forward_init, post_accept, post_eventfd,
  post_timeout,
}

-- 1 for a request whose completion the loop reads as an accept.
abbrev pub is_accept : Request → ℕ
is_accept r = if (unpack (user_data r)).1 == op_code Ops.accept then 1 else 0

pub record Keeps (u v : Worker) : Type 0 where
  pub conns_le : length v.conns ≤ length u.conns
  pub inflight_eq : v.accept_inflight ≡ u.accept_inflight
  pub shed_eq : v.cnt.shed ≡ u.cnt.shed
  pub accepts_eq : tally is_accept v.posted ≡ tally is_accept u.posted

post-Keeps : (r : Request) (w : Worker) → is_accept r ≡ 0 → Keeps w (post r w)
unfolding post
post-Keeps r w h = ground (arith, tally-cons is_accept r w.posted)

transfer_other : (op : Op) → IsTransfer op → (op_code op == op_code Ops.accept) ≡ false
transfer_other op recv_req = refl
transfer_other op _ = refl

pub Keeps-refl : (w : Worker) → Keeps w w
Keeps-refl w = omega arith

-- The frame is a preorder that contains the moves made for any connection.
pub Keeps-Contains : (cid : ℕ) → Contains cid Keeps
unfolding write syscall
Keeps-Contains cid = record {
  same = λ w. omega arith;
  then = λ u v w p q. omega arith;
  writes = λ c w e. ground (arith, length-put c w.conns);
  deletes = λ id w e. ground (arith, length-delete_le id w.conns);
  sends = λ id op fd bytes w e t. post-Keeps _ w (rw (unpack-op id op, transfer_other op t));
  receives = λ id op fd n w e t. post-Keeps _ w (rw (unpack-op id op, transfer_other op t));
  closes = λ id fd w e. post-Keeps _ w (rw (unpack-op id Ops.close));
  calls = λ call w. omega arith;
  counts = λ cnt w h. omega arith;
  queues = λ j w e. omega arith;
}

pub post_eventfd-Keeps : (w : Worker) → Keeps w (post_eventfd w)
unfolding post_eventfd
post_eventfd-Keeps w =
    ground (arith, post-Keeps (read (ud 0 (op_code Ops.eventfd))) w, unpack-op 0 Ops.eventfd)

pub post_timeout-Keeps : (w : Worker) → Keeps w (post_timeout w)
unfolding post_timeout
post_timeout-Keeps w =
    ground (arith, post-Keeps (timer (ud 0 (op_code Ops.timeout))) w, unpack-op 0 Ops.timeout)
