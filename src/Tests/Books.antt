-- ===== src/Tests/Books.antt =====
-- Runs of the worker's ledger at concrete inputs.
use flash_relay.Base.{◌+◌, ◌%◌, ◌≡◌, refl, List, [], ◌∷◌, arith}
use flash_relay.Base.Int.{pos, negsuc}
use flash_relay.Base.Words.{u64_mod}
use flash_relay.Worker.State.{Limits}
use flash_relay.Worker.Ops.{ud, unpack}
use flash_relay.Worker.Conns.{find, total, put, delete}
use flash_relay.Worker.Actions.{
  post, write, post_close, close_conn, fail, post_accept, post_timeout, post_eventfd,
}
use flash_relay.Worker.Handlers.{on_accept, admit, on_recv_req, recv_req_open, on_close}
use flash_relay.Worker.Loop.{start, top_up, handle, on_op}
use flash_relay.Base.Sums.{remove_at}
use flash_relay.Worker.Kernel.{Event, completes, tops_up, run, boot, step, complete, deliver}
use flash_relay.Worker.Ledger.{buckets, uncharged, open_conn}
use flash_relay.Worker.Ledger.Switch.{surplus_op, zero_op}
use flash_relay.Worker.Ledger.Balance.{
  surplus, surplus_at, zero_fds, zero_at, charged_once, live-counts,
}

abbrev small : Limits
small = record {
  initial_req_len = 4;
  max_req_len = 6;
  buf_size = 8;
  max_conns = 2;
  accept_batch = 2;
  idle_ticks = 10;
}

-- One accept succeeds and one fails; the client goes away before its request, and its fd is closed.
abbrev gone_client : List Event
gone_client =
    tops_up
    ∷ completes 0 (pos 7) []
    ∷ completes 1 (negsuc 23) []
    ∷ completes 0 (pos 0) []
    ∷ completes 0 (pos 0) []
    ∷ []

no_zero : zero_fds small gone_client boot ≡ 0
unfolding zero_fds zero_at zero_op find put delete run step complete top_up post_accept post start
    post_timeout post_eventfd remove_at deliver unpack ud handle on_op on_accept admit on_recv_req
    recv_req_open fail close_conn post_close write on_close
no_zero = refl

one_failed : surplus small gone_client boot ≡ 1
unfolding surplus surplus_at surplus_op find put delete run step complete top_up post_accept post
    start post_timeout post_eventfd remove_at deliver unpack ud handle on_op on_accept admit
    on_recv_req recv_req_open fail close_conn post_close write on_close
one_failed = refl

both_charged : (run small gone_client boot).worker.cnt.errors ≡ 2
unfolding find put delete run step complete top_up post_accept post start post_timeout post_eventfd
    remove_at deliver unpack ud handle on_op on_accept admit on_recv_req recv_req_open fail
    close_conn post_close write on_close
both_charged = refl

charged_once_example :
    (buckets (run small gone_client boot).worker.cnt
        + total uncharged (run small gone_client boot).worker.conns)
      % u64_mod
    ≡ ((run small gone_client boot).worker.cnt.accepted + surplus small gone_client boot) % u64_mod
charged_once_example = charged_once small gone_client (omega arith) no_zero

live-counts_example :
    (run small gone_client boot).worker.cnt.live % u64_mod
    ≡ total open_conn (run small gone_client boot).worker.conns % u64_mod
live-counts_example = live-counts small gone_client (omega arith) no_zero
