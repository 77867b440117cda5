-- ===== src/Tests.antt =====
-- Runs at concrete inputs.
mod Rings
mod Setup
mod Storms
mod Books
mod Relays
use flash_relay.Base.{ℕ, ◌<◌, ◌+◌, ◌≡◌, refl, false, List, [], ◌∷◌, Option, some, arith}
use flash_relay.Base.Int.{ℤ, pos, negsuc}
use flash_relay.Worker.State.{Limits, Conn, Decision, HookResult, Worker}
use flash_relay.Worker.Ops.{ud, unpack, unpack-ud}
use flash_relay.Worker.Handlers.{new_conn, on_accept, admit}
use flash_relay.Worker.Handlers.Hook.{on_hook_result}
use flash_relay.Worker.Actions.{grow_req, post, post_accept, post_timeout, post_eventfd}
use flash_relay.Worker.Loop.{locals, start, top_up, handle, on_op}
use flash_relay.Base.Sums.{remove_at}
use flash_relay.Worker.Kernel.{
  Event, completes, decides, overflows, tops_up, run, boot, step, complete, deliver,
}
use flash_relay.Worker.Backpressure.{HasRoom, capped}
use flash_relay.Worker.Buffers.{Grown, grow_req-Grown}
use flash_relay.Worker.HookFds.{Settled, on_hook_result-Settled}
use flash_relay.Worker.Conns.{find}
use flash_relay.Worker.Tokens.{tokens}
use flash_relay.Worker.Lifecycle.{deciding}
use flash_relay.Worker.Lifecycle.Sound.{Sound, load}
use flash_relay.Worker.Lifecycle.Always.{always-Sound, never_stuck}
use flash_relay.Bridge.Wakeup.{
  Action, appends, swaps, writes, reads, clears, drains, acts, idle, IsLive, no_lost_wakeup,
}
use flash_relay.Rawsock.Calls.{Os, Address, ip4}
use flash_relay.Rawsock.{Listener, dial_fp, listen_on}
use flash_relay.Rawsock.Ledger.{Owns, dial_fp-Owns, listen_on-Owns}
use flash_relay.Rawsock.Serve.{serve, serve-closes}
use flash_relay.Config.{Config, defaults}
use flash_relay.Config.Ready.{IsReady, defaults-IsReady}

unpack-ud_example : unpack (ud 5 8) ≡ (5, 8)
unpack-ud_example = unpack-ud 5 8 (omega arith)

abbrev tiny : Limits
tiny = record {
  initial_req_len = 4;
  max_req_len = 6;
  buf_size = 8;
  max_conns = 2;
  accept_batch = 2;
  idle_ticks = 10;
}

abbrev adopt : Decision
adopt = record { upstream_fd = pos 9; reply = []; reject = false; more = false; consumed = pos 0 }

-- Two accepts, a request of three bytes, its decision, and the relay.
abbrev busy : List Event
busy =
    tops_up
    ∷ completes 0 (pos 7) []
    ∷ completes 1 (pos 8) []
    ∷ completes 1 (pos 3) (1 ∷ 2 ∷ 3 ∷ [])
    ∷ decides 0 adopt
    ∷ completes 2 (pos 8) []
    ∷ tops_up
    ∷ overflows 1
    ∷ []

capped_example : HasRoom tiny (run tiny busy boot).worker
capped_example = capped tiny busy

always-Sound_example : Sound [] (run tiny busy boot).worker
always-Sound_example = always-Sound tiny busy (omega arith)

-- The first client stands alone, before the second accept.
abbrev short : List Event
short = tops_up ∷ completes 0 (pos 7) [] ∷ []

abbrev first_conn : Conn
first_conn = new_conn tiny 1 (pos 7) 0

first_conn-found : find 1 (run tiny short boot).worker.conns ≡ some first_conn
unfolding find run step complete top_up post_accept post start post_timeout post_eventfd remove_at
    deliver unpack ud handle on_op on_accept admit
first_conn-found = refl

never_stuck_example :
    0
    < load (tokens 1 (run tiny short boot).worker.posted)
      + deciding 1 [] (run tiny short boot).worker
never_stuck_example = never_stuck tiny short 1 first_conn (omega arith) first_conn-found

abbrev full_conn : Conn
full_conn = record (new_conn tiny 3 (pos 7) 0) { req_n = 4; req_buf = 1 ∷ 2 ∷ 3 ∷ 4 ∷ [] }

grow_req-Grown_example : Grown tiny full_conn (grow_req tiny full_conn)
grow_req-Grown_example = grow_req-Grown tiny full_conn (omega arith) (omega arith) (omega arith)

abbrev one_conn : Worker
one_conn = record locals { conns = full_conn ∷ [] }

abbrev answer : HookResult
answer = record { id = 3; dec = adopt }

on_hook_result-Settled_example :
    Settled answer.dec.upstream_fd answer.id one_conn (on_hook_result tiny answer one_conn)
on_hook_result-Settled_example = on_hook_result-Settled tiny answer one_conn refl

-- The second producer's swap finds the flag up, and the worker drains both results.
abbrev overlapping : List (Action ℕ)
overlapping = appends 1 ∷ swaps ∷ appends 2 ∷ writes ∷ reads ∷ swaps ∷ clears ∷ drains ∷ []

no_lost_wakeup_example : IsLive (acts overlapping idle)
no_lost_wakeup_example = no_lost_wakeup overlapping

abbrev parse_any : List ℕ → Option Address
parse_any ip = some (ip4 ip)

-- The second listener's bind fails.
abbrev faulty : Os
faulty = record {
  answers =
      pos 5
      ∷ pos 0
      ∷ pos 0
      ∷ pos 0
      ∷ pos 0
      ∷ pos 6
      ∷ pos 0
      ∷ pos 0
      ∷ negsuc 97
      ∷ pos 0
      ∷ pos 0
      ∷ [];
  held = λ fd. 0;
  calls = [];
}

serve-closes_example : (serve parse_any [] (pos 80) 2 faulty).1.held (pos 5) ≡ 0
serve-closes_example = serve-closes parse_any [] (pos 80) 2 faulty (pos 5)

dial_fp-Owns_example :
    Owns (λ (x : ℤ). x) faulty (dial_fp parse_any [] (pos 80) (pos 1) (pos 4096) (pos 80) faulty)
dial_fp-Owns_example = dial_fp-Owns parse_any [] (pos 80) (pos 1) (pos 4096) (pos 80) faulty

listen_on-Owns_example :
    Owns (λ (l : Listener). l.fd) faulty (listen_on parse_any [] (pos 0) (pos 4096) faulty)
listen_on-Owns_example = listen_on-Owns parse_any [] (pos 0) (pos 4096) faulty

abbrev bare : Config
bare = record {
  addr = [];
  port = pos 80;
  workers = pos 0;
  pin = false;
  start_core = pos 0;
  initial_req_len = pos 9000;
  max_req_len = negsuc 0;
  buf_size = pos 0;
  max_conns = pos 0;
  accept_batch = pos 0;
  idle_timeout = pos 0;
  hook_workers = pos 0;
  ring_size = 0;
}

defaults-IsReady_example : IsReady (defaults 4 bare)
defaults-IsReady_example = defaults-IsReady 4 bare (omega arith)
