-- ===== src/Worker/Kernel.antt =====
-- What surrounds a worker of flashrelay/worker.go: the kernel, which completes any request in
-- flight with any result that it may have, and the hook goroutines, which decide any job.
use flash_relay.Base.{
  ℕ, ◌+◌, List, [], ◌∷◌, ◌++◌, none, some, if◌then◌else◌, ◌==◌, length, take, drop, get_elem?,
}
use flash_relay.Base.Int.{ℤ}
use flash_relay.Base.Sums.{remove_at}
use flash_relay.Bridge.{push}
use flash_relay.Worker.State.{
  Limits, Conn, Decision, Worker, Request, accept, read, timer, recv, send, close,
}
use flash_relay.Worker.Ops
use flash_relay.Worker.Ops.{op_code, unpack}
use flash_relay.Worker.Conns.{find, put}
use flash_relay.Worker.Loop.{handle, check_overflow, top_up, start}

-- `posted` of the worker holds the requests in flight; `done` those completed, newest first.
pub record World : Type 0 where
  pub worker : Worker
  pub done : List Request

abbrev pub user_data : Request → ℕ
user_data (accept u) = u
user_data (read u) = u
user_data (timer u) = u
user_data (recv fd n u) = u
user_data (send fd bytes u) = u
user_data (close fd u) = u

-- The kernel's write of received bytes into a buffer, from an offset on; what has no room is not
-- written.
abbrev pub overwrite : ℕ → List ℕ → List ℕ → List ℕ
overwrite off bytes buf =
    take (length buf) (take off buf ++ (bytes ++ drop (off + length bytes) buf))

-- Where the bytes of a receive for a connection go: by the operation that asked for them.
abbrev pub receive_into : ℕ → List ℕ → Conn → Conn
receive_into op bytes cc =
    if op == op_code Ops.recv_req
    then record cc { req_buf = overwrite cc.req_n bytes cc.req_buf }
    else if op == op_code Ops.c2u_recv
    then record cc { c2u_buf = overwrite 0 bytes cc.c2u_buf }
    else if op == op_code Ops.u2c_recv
    then record cc { u2c_buf = overwrite 0 bytes cc.u2c_buf }
    else cc

unfoldable pub deliver : Request → List ℕ → Worker → Worker
deliver r bytes w =
    let (cid, op) = unpack (user_data r) in
    elim (find cid w.conns) [
      | none ↦ w
      | some cc ↦ record w { conns = put (receive_into op bytes cc) w.conns }
    ]

pub data Event : Type 0 where
  completes : ℕ → ℤ → List ℕ → Event
  decides : ℕ → Decision → Event
  overflows : ℕ → Event
  tops_up : Event

-- The request at an index of `posted` completes, and the worker handles the completion.
unfoldable pub complete : Limits → ℕ → ℤ → List ℕ → World → World
complete lim i res bytes s = elim (get_elem? s.worker.posted i) [
  | none ↦ s
  | some r ↦
      let w : Worker = record s.worker { posted = remove_at i s.worker.posted } in
      record {
        worker = handle lim (record { user_data = user_data r; res = res }) (deliver r bytes w);
        done = r ∷ s.done;
      }
]

-- The hook goroutine of the job at an index finishes.
unfoldable pub decide : ℕ → Decision → World → World
decide i dec s = elim (get_elem? s.worker.jobs i) [
  | none ↦ s
  | some j ↦
      let w = s.worker in
      record s {
        worker = record w {
          jobs = remove_at i w.jobs;
          br = push (record { id = j.id; dec = dec }) w.br;
        };
      }
]

unfoldable pub step : Limits → Event → World → World
step lim (completes i res bytes) s = complete lim i res bytes s
step lim (decides i dec) s = decide i dec s
step lim (overflows ov) s = record s { worker = check_overflow ov s.worker }
step lim tops_up s = record s { worker = top_up lim.accept_batch lim s.worker }

unfoldable pub run : Limits → List Event → World → World
run lim [] s = s
run lim (e ∷ es) s = run lim es (step lim e s)

-- A worker that is about to enter its loop, and the kernel with nothing done.
abbrev pub boot : World
boot = record { worker = start; done = [] }
