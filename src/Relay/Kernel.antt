-- ===== src/Relay/Kernel.antt =====
-- What surrounds a worker of research/gate/cmd/relay-uring/main.go: the kernel, which completes any
-- request in flight with any result that it may have, and the hook goroutines, which decide any job.
use flash_relay.Base.{ℕ, Bool, List, [], ◌∷◌, Option, none, some, get_elem?}
use flash_relay.Base.Int.{ℤ}
use flash_relay.Base.Sums.{remove_at}
use flash_relay.Base.Table.{lookup}
use flash_relay.Bridge.{push}
use flash_relay.Worker.Ops.{ud}
use flash_relay.Worker.Kernel.{overwrite}
use flash_relay.Relay.State.{
  Pipe, Conn, RelayCfg, Tag, Request, accept, read, timer, recv, send, splice, close, Relay,
}
use flash_relay.Relay.Ops
use flash_relay.Relay.Ops.{Op, op_code}
use flash_relay.Relay.Actions.{write}
use flash_relay.Relay.Loop.{handle, top_up}

abbrev pub tag_of : Request → Tag
tag_of (accept fd t) = t
tag_of (read t) = t
tag_of (timer t) = t
tag_of (recv fd n t) = t
tag_of (send fd bytes t) = t
tag_of (splice from to n t) = t
tag_of (close fd t) = t

-- Where the bytes of a receive for a connection go: by the operation that asked for them.
abbrev pub receive_into : Op → List ℕ → Conn → Conn
receive_into Ops.recv_req bytes cc = record cc { req_buf = overwrite 0 bytes cc.req_buf }
receive_into Ops.recv_resp bytes cc = record cc { resp_buf = overwrite 0 bytes cc.resp_buf }
receive_into Ops.c2u_recv bytes cc = record cc { c2u_buf = overwrite 0 bytes cc.c2u_buf }
receive_into Ops.u2c_recv bytes cc = record cc { u2c_buf = overwrite 0 bytes cc.u2c_buf }
receive_into _ bytes cc = cc

unfoldable pub deliver : Tag → List ℕ → Relay → Relay
deliver t bytes w = elim (lookup t.id w.conns) [
  | none ↦ w
  | some cc ↦ write (receive_into t.op bytes cc) w
]

pub data Event : Type 0 where
  completes : ℕ → ℤ → List ℕ → Option Pipe → Option Pipe → Event
  decides : ℕ → ℤ → Bool → Event
  tops_up : Event

-- The request at an index of `posted` completes, and the worker handles the completion.
unfoldable pub complete : RelayCfg → ℕ → ℤ → List ℕ → Option Pipe → Option Pipe → Relay → Relay
complete cfg i res bytes p q s = elim (get_elem? s.posted i) [
  | none ↦ s
  | some r ↦
      let t = tag_of r in
      let w : Relay = record s { posted = remove_at i s.posted } in
      handle cfg
        (record { user_data = ud t.id (op_code t.op); res = res; first_pipe = p; second_pipe = q })
        (deliver t bytes w)
]

-- The hook goroutine of the job at an index finishes.
unfoldable pub decide : ℕ → ℤ → Bool → Relay → Relay
decide i fd ok w = elim (get_elem? w.jobs i) [
  | none ↦ w
  | some id ↦ record w {
    jobs = remove_at i w.jobs;
    br = push (record { id = id; upstream_fd = fd; ok = ok }) w.br;
  }
]

unfoldable pub step : RelayCfg → Event → Relay → Relay
step cfg (completes i res bytes p q) w = complete cfg i res bytes p q w
step cfg (decides i fd ok) w = decide i fd ok w
step cfg tops_up w = top_up cfg w

unfoldable pub run : RelayCfg → List Event → Relay → Relay
run cfg [] w = w
run cfg (e ∷ es) w = run cfg es (step cfg e w)
