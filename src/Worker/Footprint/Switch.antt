-- ===== src/Worker/Footprint/Switch.antt =====
-- The cases of the completion `switch` in flashrelay/worker.go that are about one connection, as one.
use flash_relay.Base.{ℕ, ◌≡◌, refl, none}
use flash_relay.Base.Int.{ℤ}
use flash_relay.Worker.State.{Limits, Worker}
use flash_relay.Worker.Ops.{Op}
use flash_relay.Worker.Conns.{find}
use flash_relay.Worker.Handlers.{
  with_conn, on_recv_req, on_reply_client, on_reply_more, on_reject_send, on_send_up, on_c2u_recv,
  on_c2u_send, on_u2c_recv, on_u2c_send,
}
use flash_relay.Worker.Loop.{on_op}
use flash_relay.Worker.Footprint.{
  Contains, IsTransfer, recv_req, reply_client, reply_more, send_up, reject_send, c2u_recv,
  c2u_send, u2c_recv, u2c_send,
}
use flash_relay.Worker.Footprint.Cases

module _ (lim : Limits) (cid : ℕ) (res : ℤ) (w : Worker) where
  pub of_transfer :
      (R : Worker → Worker → Type 0)
      → Contains cid R
      → (op : Op) → IsTransfer op
      → R w (on_op lim cid res op w)
  unfolding on_op
  of_transfer R l op recv_req = Cases.of_recv_req cid R l res w
  of_transfer R l op reply_client = Cases.of_reply_client cid R l lim res w
  of_transfer R l op reply_more = Cases.of_reply_more cid R l res w
  of_transfer R l op send_up = Cases.of_send_up cid R l lim res w
  of_transfer R l op reject_send = Cases.of_reject_send cid R l res w
  of_transfer R l op c2u_recv = Cases.of_c2u_recv cid R l res w
  of_transfer R l op c2u_send = Cases.of_c2u_send cid R l res w
  of_transfer R l op u2c_recv = Cases.of_u2c_recv cid R l res w
  of_transfer R l op u2c_send = Cases.of_u2c_send cid R l res w

  -- Where there is no such connection, nothing happens.
  pub transfer_gone :
      (op : Op) → IsTransfer op → find cid w.conns ≡ none → on_op lim cid res op w ≡ w
  unfolding on_op on_recv_req on_reply_client on_reply_more on_reject_send on_send_up on_c2u_recv
      on_c2u_send on_u2c_recv on_u2c_send
  transfer_gone op recv_req e = rw (e, with_conn) refl
  transfer_gone op reply_client e = rw (e, with_conn) refl
  transfer_gone op reply_more e = rw (e, with_conn) refl
  transfer_gone op send_up e = rw (e, with_conn) refl
  transfer_gone op reject_send e = rw (e, with_conn) refl
  transfer_gone op c2u_recv e = rw (e, with_conn) refl
  transfer_gone op c2u_send e = rw (e, with_conn) refl
  transfer_gone op u2c_recv e = rw (e, with_conn) refl
  transfer_gone op u2c_send e = rw (e, with_conn) refl
