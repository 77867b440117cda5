-- ===== src/Relay/Phase/Relays.antt =====
-- The cases of the relay in both directions in research/gate/cmd/relay-uring/main.go land their
-- connection in phase.
use flash_relay.Base.{
  ℕ, ◌+◌, ◌≤◌, ◌≡◌, refl, inl, inr, true, false, ◌∷◌, some, arith, if-rule, ltb, length,
}
use flash_relay.Base.Int.{ℤ, is_neg, is_nonpos, pos_part}
use flash_relay.Base.Words.{add64}
use flash_relay.Base.Table.{lookup, entries}
use flash_relay.Worker.Actions.{slice}
use flash_relay.Relay.State.{Conn, RelayCfg, recv, send, splice, shutdown_wr, Relay}
use flash_relay.Relay.Ops
use flash_relay.Relay.Actions.{tag, syscall, write, close_conn}
use flash_relay.Relay.Duplex.{
  c2u_recv_open, c2u_send_open, u2c_recv_open, u2c_send_open, c2u_splice_in_open,
  c2u_splice_out_open, u2c_splice_in_open, u2c_splice_out_open,
}
use flash_relay.Relay.Acts.{Acts, first_then}
use flash_relay.Relay.Acts.Moves.{Acts-note, Acts-post, Acts-write}
use flash_relay.Relay.Acts.Closing.{named_of}
use flash_relay.Relay.Phase.{IsRelaying}
use flash_relay.Relay.Phase.Landing.{Lands, before, close_conn-Lands}

module _ (cfg : RelayCfg) (c : Conn) (w : Relay) (p l k : ℕ) (found : lookup c.id w.conns ≡ some c)
    (once : entries c.id w.conns ≤ 1) (h : IsRelaying cfg c p k) where
  -- The relay goes on, with so many requests more.
  relays_on :
      (c' : Conn) (v : Relay) (n : ℕ)
      → Acts cfg c.id w v (some c') 0 n 0
      → c'.closing ≡ false
      → Lands cfg c.id w v p l k
  relays_on c' v n acts going = record {
    entry = some c';
    more_pending = 0;
    more_relaying = n;
    more_closing = 0;
    acts = acts;
    phase = inr (
        inl (record {
          going = going;
          no_pending = omega (arith, h.no_pending);
          no_close = omega (arith, h.no_close);
          both = h.both;
        }));
  }

  -- Not in a relay of one reply.
  both_ways : cfg.duplex ≡ false → l ≡ 0
  both_ways plain = absurd (cc (plain, h.both))

  stops : Lands cfg c.id w (close_conn cfg c w) p l k
  stops = close_conn-Lands cfg c c w found once refl h.going p l k h.no_pending h.no_close both_ways

  own : (x : Conn) → some c ≡ some x → x.id ≡ c.id
  own x = named_of c x refl

  shut_down : (fd : ℤ) → Acts cfg c.id w (syscall (shutdown_wr fd) w) (some c) 0 0 0
  unfolding syscall
  shut_down fd =
      Acts-note cfg c.id w (some c) found own (shutdown_wr fd ∷ w.calls) w.errs w.completed
        w.g_completed

module _ (cfg : RelayCfg) (c : Conn) (w : Relay) (p l k : ℕ) (found : lookup c.id w.conns ≡ some c)
    (once : entries c.id w.conns ≤ 1) (h : IsRelaying cfg c p k) where
  pub c2u_recv-Lands : (res : ℤ) → Lands cfg c.id w (c2u_recv_open cfg res c w) p l k
  unfolding c2u_recv_open
  c2u_recv-Lands res =
      let ended : Conn = record c { client_read_done = true } in
      let w1 = syscall (shutdown_wr c.upstream_fd) w in
      let halved = shut_down cfg c w p l k found once h c.upstream_fd in
      let closed = first_then halved (Acts-write cfg ended c w1 halved.own) in
      let filled : Conn = record c {
        bytes_c2u = add64 c.bytes_c2u (pos_part res);
        c2u_off = 0;
        c2u_end = pos_part res;
      } in
      let r = send c.upstream_fd (slice 0 (pos_part res) c.c2u_buf) (tag c.id Ops.c2u_send) in
      let wrote = Acts-write cfg filled c w found in
      if-rule (λ v. Lands cfg c.id w v p l k) (is_neg res) (λ _. stops cfg c w p l k found once h)
        (λ _.
          if-rule (λ v. Lands cfg c.id w v p l k) (is_nonpos res)
            (λ _.
              if-rule (λ v. Lands cfg c.id w v p l k) c.upstream_read_done
                (λ _. before closed (
                  close_conn-Lands cfg ended ended _ closed.own
                    (omega (arith, once, closed.entries_le c.id)) refl h.going p l k h.no_pending
                    h.no_close (both_ways cfg c w p l k found once h)))
                (λ _. relays_on cfg c w p l k found once h ended _ 0 closed h.going))
            (λ _.
              relays_on cfg c w p l k found once h filled _ 1
                (first_then wrote (
                  Acts-post cfg c.id (write filled w) (some filled) wrote.own wrote.named r refl
                    refl))
                h.going))

  pub c2u_send-Lands : (res : ℤ) → Lands cfg c.id w (c2u_send_open cfg res c w) p l k
  unfolding c2u_send_open
  c2u_send-Lands res =
      let c' : Conn = record c { c2u_off = c.c2u_off + pos_part res } in
      let w1 = write c' w in
      let wrote = Acts-write cfg c' c w found in
      let rest =
        send c.upstream_fd (slice c'.c2u_off c.c2u_end c.c2u_buf) (tag c.id Ops.c2u_send) in
      let next = recv c.client_fd (length c.c2u_buf) (tag c.id Ops.c2u_recv) in
      if-rule (λ v. Lands cfg c.id w v p l k) (is_nonpos res)
        (λ _. stops cfg c w p l k found once h)
        (λ _.
          if-rule (λ v. Lands cfg c.id w v p l k) (ltb c'.c2u_off c.c2u_end)
            (λ _.
              relays_on cfg c w p l k found once h c' _ 1
                (first_then wrote
                  (Acts-post cfg c.id w1 (some c') wrote.own wrote.named rest refl refl))
                h.going)
            (λ _.
              if-rule (λ v. Lands cfg c.id w v p l k) c.client_read_done
                (λ _. relays_on cfg c w p l k found once h c' _ 0 wrote h.going)
                (λ _.
                  relays_on cfg c w p l k found once h c' _ 1
                    (first_then wrote
                      (Acts-post cfg c.id w1 (some c') wrote.own wrote.named next refl refl))
                    h.going)))

  pub u2c_recv-Lands : (res : ℤ) → Lands cfg c.id w (u2c_recv_open cfg res c w) p l k
  unfolding u2c_recv_open
  u2c_recv-Lands res =
      let ended : Conn = record c { upstream_read_done = true } in
      let w1 = syscall (shutdown_wr c.client_fd) w in
      let halved = shut_down cfg c w p l k found once h c.client_fd in
      let closed = first_then halved (Acts-write cfg ended c w1 halved.own) in
      let filled : Conn = record c {
        bytes_u2c = add64 c.bytes_u2c (pos_part res);
        u2c_off = 0;
        u2c_end = pos_part res;
      } in
      let r = send c.client_fd (slice 0 (pos_part res) c.u2c_buf) (tag c.id Ops.u2c_send) in
      let wrote = Acts-write cfg filled c w found in
      if-rule (λ v. Lands cfg c.id w v p l k) (is_neg res) (λ _. stops cfg c w p l k found once h)
        (λ _.
          if-rule (λ v. Lands cfg c.id w v p l k) (is_nonpos res)
            (λ _.
              if-rule (λ v. Lands cfg c.id w v p l k) c.client_read_done
                (λ _. before closed (
                  close_conn-Lands cfg ended ended _ closed.own
                    (omega (arith, once, closed.entries_le c.id)) refl h.going p l k h.no_pending
                    h.no_close (both_ways cfg c w p l k found once h)))
                (λ _. relays_on cfg c w p l k found once h ended _ 0 closed h.going))
            (λ _.
              relays_on cfg c w p l k found once h filled _ 1
                (first_then wrote (
                  Acts-post cfg c.id (write filled w) (some filled) wrote.own wrote.named r refl
                    refl))
                h.going))

  pub u2c_send-Lands : (res : ℤ) → Lands cfg c.id w (u2c_send_open cfg res c w) p l k
  unfolding u2c_send_open
  u2c_send-Lands res =
      let c' : Conn = record c { u2c_off = c.u2c_off + pos_part res } in
      let w1 = write c' w in
      let wrote = Acts-write cfg c' c w found in
      let rest = send c.client_fd (slice c'.u2c_off c.u2c_end c.u2c_buf) (tag c.id Ops.u2c_send) in
      let next = recv c.upstream_fd (length c.u2c_buf) (tag c.id Ops.u2c_recv) in
      if-rule (λ v. Lands cfg c.id w v p l k) (is_nonpos res)
        (λ _. stops cfg c w p l k found once h)
        (λ _.
          if-rule (λ v. Lands cfg c.id w v p l k) (ltb c'.u2c_off c.u2c_end)
            (λ _.
              relays_on cfg c w p l k found once h c' _ 1
                (first_then wrote
                  (Acts-post cfg c.id w1 (some c') wrote.own wrote.named rest refl refl))
                h.going)
            (λ _.
              if-rule (λ v. Lands cfg c.id w v p l k) c.upstream_read_done
                (λ _. relays_on cfg c w p l k found once h c' _ 0 wrote h.going)
                (λ _.
                  relays_on cfg c w p l k found once h c' _ 1
                    (first_then wrote
                      (Acts-post cfg c.id w1 (some c') wrote.own wrote.named next refl refl))
                    h.going)))

  pub c2u_splice_in-Lands : (res : ℤ) → Lands cfg c.id w (c2u_splice_in_open cfg res c w) p l k
  unfolding c2u_splice_in_open
  c2u_splice_in-Lands res =
      let r = splice c.client_fd c.c2u_pipe.write_end cfg.buf_size (tag c.id Ops.c2u_splice_in) in
      if-rule (λ v. Lands cfg c.id w v p l k) (is_nonpos res)
        (λ _. stops cfg c w p l k found once h)
        (λ _.
          relays_on cfg c w p l k found once h c _ 1
            (Acts-post cfg c.id w (some c) found (own cfg c w p l k found once h) r refl refl)
            h.going)

  pub c2u_splice_out-Lands : (res : ℤ) → Lands cfg c.id w (c2u_splice_out_open cfg res c w) p l k
  unfolding c2u_splice_out_open
  c2u_splice_out-Lands res =
      let c' : Conn = record c { bytes_c2u = add64 c.bytes_c2u (pos_part res) } in
      let wrote = Acts-write cfg c' c w found in
      let r = splice c.c2u_pipe.read_end c.upstream_fd cfg.buf_size (tag c.id Ops.c2u_splice_out) in
      if-rule (λ v. Lands cfg c.id w v p l k) (is_nonpos res)
        (λ _. stops cfg c w p l k found once h)
        (λ _.
          relays_on cfg c w p l k found once h c' _ 1
            (first_then wrote
              (Acts-post cfg c.id (write c' w) (some c') wrote.own wrote.named r refl refl))
            h.going)

  pub u2c_splice_in-Lands : (res : ℤ) → Lands cfg c.id w (u2c_splice_in_open cfg res c w) p l k
  unfolding u2c_splice_in_open
  u2c_splice_in-Lands res =
      let r = splice c.upstream_fd c.u2c_pipe.write_end cfg.buf_size (tag c.id Ops.u2c_splice_in) in
      if-rule (λ v. Lands cfg c.id w v p l k) (is_nonpos res)
        (λ _. stops cfg c w p l k found once h)
        (λ _.
          relays_on cfg c w p l k found once h c _ 1
            (Acts-post cfg c.id w (some c) found (own cfg c w p l k found once h) r refl refl)
            h.going)

  pub u2c_splice_out-Lands : (res : ℤ) → Lands cfg c.id w (u2c_splice_out_open cfg res c w) p l k
  unfolding u2c_splice_out_open
  u2c_splice_out-Lands res =
      let c' : Conn = record c { bytes_u2c = add64 c.bytes_u2c (pos_part res) } in
      let wrote = Acts-write cfg c' c w found in
      let r = splice c.u2c_pipe.read_end c.client_fd cfg.buf_size (tag c.id Ops.u2c_splice_out) in
      if-rule (λ v. Lands cfg c.id w v p l k) (is_nonpos res)
        (λ _. stops cfg c w p l k found once h)
        (λ _.
          relays_on cfg c w p l k found once h c' _ 1
            (first_then wrote
              (Acts-post cfg c.id (write c' w) (some c') wrote.own wrote.named r refl refl))
            h.going)
