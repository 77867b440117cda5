-- ===== src/Worker/Footprint.antt =====
-- The smallest moves of which the closures and cases of flashrelay/worker.go are made, when they
-- act for one connection: what any preorder on workers has to contain to contain the cases.
pub mod Closures
pub mod Cases
pub mod Decisions
pub mod Switch
use flash_relay.Base.{ℕ, ◌≡◌, List, [], ◌∷◌, ◌++◌}
use flash_relay.Base.Int.{ℤ}
use flash_relay.Worker.State.{Conn, Counters, Worker, Job, Syscall, send, recv, close}
use flash_relay.Worker.Ops
use flash_relay.Worker.Ops.{Op, op_code, ud}
use flash_relay.Worker.Conns.{delete}
use flash_relay.Worker.Actions.{post, syscall, write}

-- The operations of a connection's requests, closes apart.
pub data IsTransfer : Op → Type 0 where
  recv_req : IsTransfer Ops.recv_req
  reply_client : IsTransfer Ops.reply_client
  reply_more : IsTransfer Ops.reply_more
  send_up : IsTransfer Ops.send_up
  reject_send : IsTransfer Ops.reject_send
  c2u_recv : IsTransfer Ops.c2u_recv
  c2u_send : IsTransfer Ops.c2u_send
  u2c_recv : IsTransfer Ops.u2c_recv
  u2c_send : IsTransfer Ops.u2c_send

pub record Contains (cid : ℕ) (R : Worker → Worker → Type 0) : Type 0 where
  pub same : (w : Worker) → R w w
  pub then : (u v w : Worker) → R u v → R v w → R u w
  pub writes : (c : Conn) (w : Worker) → c.id ≡ cid → R w (write c w)
  pub deletes : (id : ℕ) (w : Worker) → id ≡ cid → R w (record w { conns = delete id w.conns })
  pub sends :
      (id : ℕ) (op : Op) (fd : ℤ) (bytes : List ℕ) (w : Worker)
      → id ≡ cid
      → IsTransfer op
      → R w (post (send fd bytes (ud id (op_code op))) w)
  pub receives :
      (id : ℕ) (op : Op) (fd : ℤ) (n : ℕ) (w : Worker)
      → id ≡ cid
      → IsTransfer op
      → R w (post (recv fd n (ud id (op_code op))) w)
  pub closes :
      (id : ℕ) (fd : ℤ) (w : Worker)
      → id ≡ cid
      → R w (post (close fd (ud id (op_code Ops.close))) w)
  pub calls : (call : Syscall) (w : Worker) → R w (syscall call w)
  pub counts : (cnt : Counters) (w : Worker) → cnt.shed ≡ w.cnt.shed → R w (record w { cnt = cnt })
  pub queues : (j : Job) (w : Worker) → j.id ≡ cid → R w (record w { jobs = w.jobs ++ j ∷ [] })
