-- ===== src/Tests/Relays.antt =====
-- Runs of the research relay at concrete inputs.
use flash_relay.Base.{
  ℕ, ◌+◌, ◌-◌, ◌≡◌, ◌&&◌, refl, true, false, List, [], ◌∷◌, Option, none, some, arith, length, leb,
  if◌then◌else◌,
}
use flash_relay.Relay.Options.{Chosen, core_list, core_list-Chosen}
use flash_relay.Base.Int.{ℤ, pos}
use flash_relay.Base.Sums.{remove_at}
use flash_relay.Base.Table.{lookup, insert, delete}
use flash_relay.Bridge.{push, append, wake, swap, signal, clear, drain}
use flash_relay.Worker.Ops.{ud, unpack}
use flash_relay.Relay.State.{RelayCfg}
use flash_relay.Relay.Actions.{
  get_conn, put_conn, post, write, close_conn, post_close, post_accept, post_eventfd, post_timeout,
}
use flash_relay.Relay.Cases.{
  admit, on_accept, on_hook_result, on_hook_results, on_eventfd, on_recv_req, recv_req_found,
  on_send_up, send_up_found, on_recv_resp, recv_resp_found, on_send_client, send_client_found,
  on_close, close_found,
}
use flash_relay.Relay.Actions.{per_ln}
use flash_relay.Relay.Loop.{top_up, top_up_from, top_up_one, on_op, handle, start, accept_from}
use flash_relay.Relay.Kernel.{
  Event, completes, decides, tops_up, deliver, complete, decide, step, run,
}
use flash_relay.Relay.Acts.{pending, relaying, closing}
use flash_relay.Relay.Sound.{Armed}
use flash_relay.Relay.Sound.Always.{due, one_outstanding, get_conn-blank, LikeNew, accepts-Armed}

abbrev churn : RelayCfg
churn = record {
  req_len = 2;
  reply_len = 2;
  duplex = false;
  splice = false;
  buf_size = 8;
  max_conns = 3;
  accept_batch = 2;
  lns = pos 4 ∷ pos 5 ∷ [];
}

-- A client is accepted, its request is decided and relayed, the reply comes back, and both fds are
-- closed.
abbrev one_client : List Event
one_client =
    completes 3 (pos 7) [] none none
    ∷ completes 0 (pos 2) (1 ∷ 2 ∷ []) none none
    ∷ decides 0 (pos 9) true
    ∷ completes 1 (pos 8) [] none none
    ∷ completes 0 (pos 2) [] none none
    ∷ completes 0 (pos 2) (5 ∷ 6 ∷ []) none none
    ∷ completes 0 (pos 2) [] none none
    ∷ completes 0 (pos 0) [] none none
    ∷ completes 0 (pos 0) [] none none
    ∷ tops_up
    ∷ []

one_outstanding_example :
    pending 1 (run churn one_client (start churn))
      + relaying 1 (run churn one_client (start churn))
      + closing 1 (run churn one_client (start churn))
    ≡ due (lookup 1 (run churn one_client (start churn)).conns)
one_outstanding_example =
    one_outstanding churn one_client 1 (omega arith) (omega arith) refl (omega arith)

get_conn-blank_example : LikeNew churn (get_conn churn (run churn one_client (start churn))).0
get_conn-blank_example = get_conn-blank churn one_client (omega arith) (omega arith)

accepts-Armed_example : Armed churn (run churn one_client (start churn))
accepts-Armed_example = accepts-Armed churn one_client (omega arith) (omega arith)

-- The struct of the client is in the freelist at the end.
recycled : length (run churn one_client (start churn)).conn_free ≡ 1
unfolding run step complete remove_at deliver unpack ud handle on_op start accept_from post_accept
    post_eventfd post_timeout post on_accept admit get_conn write lookup insert delete on_recv_req
    recv_req_found decide push append wake swap signal on_eventfd clear drain on_hook_results
    on_hook_result on_send_up send_up_found on_recv_resp recv_resp_found on_send_client
    send_client_found close_conn post_close on_close close_found put_conn top_up top_up_from
    top_up_one per_ln
recycled = refl

-- A digit is its number, and all else is refused.
abbrev digit : List ℕ → Option ℤ
digit (d ∷ []) = if leb 48 d && leb d 57 then some (pos (d - 48)) else none
digit _ = none

core_list-Chosen_example :
    Chosen
      (λ f. f)
      digit
      (b'2' ∷ b',' ∷ b'5' ∷ [])
      ((b'2' ∷ []) ∷ (b'5' ∷ []) ∷ [])
      2
      (core_list (λ f. f) digit (b'2' ∷ b',' ∷ b'5' ∷ []) ((b'2' ∷ []) ∷ (b'5' ∷ []) ∷ []) 2)
core_list-Chosen_example =
    core_list-Chosen (λ f. f) digit (b'2' ∷ b',' ∷ b'5' ∷ []) ((b'2' ∷ []) ∷ (b'5' ∷ []) ∷ []) 2
