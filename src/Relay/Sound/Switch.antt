-- ===== src/Relay/Sound/Switch.antt =====
-- The invariant through the cases of research/gate/cmd/relay-uring/main.go that are about one
-- connection.
use flash_relay.Base.{ℕ, ◌+◌, ◌≤◌, ◌≡◌, refl, List, arith}
use flash_relay.Relay.State.{HookResult, RelayCfg, Relay}
use flash_relay.Relay.Ops
use flash_relay.Relay.Ops.{Op}
use flash_relay.Relay.Cases.{
  on_recv_req, on_send_up, on_recv_resp, on_send_client, recv_req_found, send_up_found,
  recv_resp_found, send_client_found,
}
use flash_relay.Relay.Duplex.{
  on_c2u_recv, on_c2u_send, on_u2c_recv, on_u2c_send, on_c2u_splice_in, on_c2u_splice_out,
  on_u2c_splice_in, on_u2c_splice_out, c2u_recv_open, c2u_send_open, u2c_recv_open, u2c_send_open,
  c2u_splice_in_open, c2u_splice_out_open, u2c_splice_in_open, u2c_splice_out_open,
}
use flash_relay.Relay.Loop.{Completion, on_op}
use flash_relay.Relay.Acts.{class, accept_bit, service}
use flash_relay.Relay.Phase.Starts.{
  recv_req-Lands, send_up-Lands, recv_resp-Lands, send_client-Lands,
}
use flash_relay.Relay.Phase.Relays.{
  c2u_recv-Lands, c2u_send-Lands, u2c_recv-Lands, u2c_send-Lands, c2u_splice_in-Lands,
  c2u_splice_out-Lands, u2c_splice_in-Lands, u2c_splice_out-Lands,
}
use flash_relay.Relay.Sound.{Rest, Sound, SoundHeld, Armed, Calm-Armed}
use flash_relay.Relay.Sound.Found.{Arrived, starts_case, relays_case, close_case}

-- What a completion keeps: the invariant, one id given out at most, and the accepts.
pub record After (cfg : RelayCfg) (taken : List HookResult) (u v : Relay) : Type 0 where
  pub sound : Sound cfg taken v
  pub next_le : v.next_id ≤ u.next_id + 1
  pub armed : Armed cfg v

pub held :
    (cfg : RelayCfg) (taken : List HookResult) (u v : Relay)
    → Armed cfg u
    → SoundHeld cfg taken u v
    → After cfg taken u v
held cfg taken u v a h = record {
  sound = h.sound;
  next_le = omega (arith, h.calm.next_eq);
  armed = Calm-Armed cfg u v h.calm a;
}

-- The cases of the `switch` that are about one connection.
module _ (cfg : RelayCfg) (cid : ℕ) (taken : List HookResult) (w : Relay) (h : Rest cfg cid taken w)
    (e : Completion) where
  pub op-Sound :
      (op : Op)
      → (class op ≡ service → After cfg taken w (on_op cfg cid e op w))
      → Arrived cfg cid taken op w
      → (accept_bit op ≡ 0 → Armed cfg w)
      → After cfg taken w (on_op cfg cid e op w)
  unfolding Arrived on_op on_recv_req on_send_up on_recv_resp on_send_client on_c2u_recv on_c2u_send
      on_u2c_recv on_u2c_send on_c2u_splice_in on_c2u_splice_out on_u2c_splice_in on_u2c_splice_out
  op-Sound Ops.accept serve a am = serve refl
  op-Sound Ops.eventfd serve a am = serve refl
  op-Sound Ops.timeout serve a am = serve refl
  op-Sound Ops.close serve a am = held cfg taken w _ (am refl) (close_case cfg cid taken w h a)
  op-Sound Ops.recv_req serve a am = held cfg taken w _ (am refl) (
      starts_case cfg cid taken w h (recv_req_found cfg e.res) a
        (λ c p l k f o s. recv_req-Lands cfg c w p l k f o s e.res))
  op-Sound Ops.send_up serve a am = held cfg taken w _ (am refl) (
      starts_case cfg cid taken w h (send_up_found cfg e.first_pipe e.second_pipe e.res) a
        (λ c p l k f o s. send_up-Lands cfg c w p l k f o s e.first_pipe e.second_pipe e.res))
  op-Sound Ops.recv_resp serve a am = held cfg taken w _ (am refl) (
      starts_case cfg cid taken w h (recv_resp_found cfg e.res) a
        (λ c p l k f o s. recv_resp-Lands cfg c w p l k f o s e.res))
  op-Sound Ops.send_client serve a am = held cfg taken w _ (am refl) (
      starts_case cfg cid taken w h (send_client_found cfg e.res) a
        (λ c p l k f o s. send_client-Lands cfg c w p l k f o s e.res))
  op-Sound Ops.c2u_recv serve a am = held cfg taken w _ (am refl) (
      relays_case cfg cid taken w h (c2u_recv_open cfg e.res) a
        (λ c p l k f o s. c2u_recv-Lands cfg c w p l k f o s e.res))
  op-Sound Ops.c2u_send serve a am = held cfg taken w _ (am refl) (
      relays_case cfg cid taken w h (c2u_send_open cfg e.res) a
        (λ c p l k f o s. c2u_send-Lands cfg c w p l k f o s e.res))
  op-Sound Ops.u2c_recv serve a am = held cfg taken w _ (am refl) (
      relays_case cfg cid taken w h (u2c_recv_open cfg e.res) a
        (λ c p l k f o s. u2c_recv-Lands cfg c w p l k f o s e.res))
  op-Sound Ops.u2c_send serve a am = held cfg taken w _ (am refl) (
      relays_case cfg cid taken w h (u2c_send_open cfg e.res) a
        (λ c p l k f o s. u2c_send-Lands cfg c w p l k f o s e.res))
  op-Sound Ops.c2u_splice_in serve a am = held cfg taken w _ (am refl) (
      relays_case cfg cid taken w h (c2u_splice_in_open cfg e.res) a
        (λ c p l k f o s. c2u_splice_in-Lands cfg c w p l k f o s e.res))
  op-Sound Ops.c2u_splice_out serve a am = held cfg taken w _ (am refl) (
      relays_case cfg cid taken w h (c2u_splice_out_open cfg e.res) a
        (λ c p l k f o s. c2u_splice_out-Lands cfg c w p l k f o s e.res))
  op-Sound Ops.u2c_splice_in serve a am = held cfg taken w _ (am refl) (
      relays_case cfg cid taken w h (u2c_splice_in_open cfg e.res) a
        (λ c p l k f o s. u2c_splice_in-Lands cfg c w p l k f o s e.res))
  op-Sound Ops.u2c_splice_out serve a am = held cfg taken w _ (am refl) (
      relays_case cfg cid taken w h (u2c_splice_out_open cfg e.res) a
        (λ c p l k f o s. u2c_splice_out-Lands cfg c w p l k f o s e.res))
