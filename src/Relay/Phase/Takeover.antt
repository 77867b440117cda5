-- ===== src/Relay/Phase/Takeover.antt =====
-- `case opSendUp` of research/gate/cmd/relay-uring/main.go where the relay in both directions takes
-- over: what a case leads to that finds its connection before the relay.
use flash_relay.Base.{
  ℕ, ◌+◌, ◌≤◌, ◌≡◌, refl, inl, inr, true, false, ◌∷◌, Option, some, arith, if-rule, length,
  replicate,
}
use flash_relay.Base.Table.{lookup, entries}
use flash_relay.Relay.State.{Pipe, Conn, RelayCfg, recv, splice, make_pipe, Syscall, Relay}
use flash_relay.Relay.Ops
use flash_relay.Relay.Actions.{tag, post, syscall, write, close_conn}
use flash_relay.Relay.Cases.{count_err, start_splice, start_duplex, pipe_or, failed, fill, drain_to}
use flash_relay.Relay.Acts.{Acts, Acts-trans, first_then}
use flash_relay.Relay.Acts.Moves.{Acts-note, Acts-post, Acts-write}
use flash_relay.Relay.Acts.Closing.{named_of}
use flash_relay.Relay.Phase.{IsStarting, pipe_ends}
use flash_relay.Relay.Phase.Landing.{Lands, before, failed-Lands}

module _ (cfg : RelayCfg) (c : Conn) (w : Relay) (p l k : ℕ) (found : lookup c.id w.conns ≡ some c)
    (once : entries c.id w.conns ≤ 1) (h : IsStarting c (p + 1) l k) where
  -- One thing is outstanding again.
  pub goes_on :
      (c' : Conn) (v : Relay)
      → Acts cfg c.id w v (some c') 1 0 0
      → c'.closing ≡ false
      → pipe_ends c' ≡ 0
      → Lands cfg c.id w v p l k
  goes_on c' v acts going no_pipes = record {
    entry = some c';
    more_pending = 1;
    more_relaying = 0;
    more_closing = 0;
    acts = acts;
    phase = inl (record {
      going = going;
      one = omega (arith, h.one);
      no_relay = omega (arith, h.no_relay);
      no_close = omega (arith, h.no_close);
      no_pipes = no_pipes;
    });
  }

  -- The relay takes over.
  pub taken_over :
      (c' : Conn) (v : Relay) (n : ℕ)
      → Acts cfg c.id w v (some c') 0 n 0
      → c'.closing ≡ false
      → cfg.duplex ≡ true
      → Lands cfg c.id w v p l k
  taken_over c' v n acts going both = record {
    entry = some c';
    more_pending = 0;
    more_relaying = n;
    more_closing = 0;
    acts = acts;
    phase = inr (
        inl (record {
          going = going;
          no_pending = omega (arith, h.one);
          no_close = omega (arith, h.no_close);
          both = both;
        }));
  }

  pub fails : Lands cfg c.id w (close_conn cfg c (count_err w)) p l k
  fails =
      failed-Lands cfg c w p l k found once h.going (omega (arith, h.one))
        (omega (arith, h.no_close)) (λ _. h.no_relay)

  pub own : (x : Conn) → some c ≡ some x → x.id ≡ c.id
  own x = named_of c x refl

module _ (cfg : RelayCfg) (c : Conn) (w : Relay) (p l k : ℕ) (found : lookup c.id w.conns ≡ some c)
    (once : entries c.id w.conns ≤ 1) (h : IsStarting c (p + 1) l k) where
  pub start_duplex-Lands : cfg.duplex ≡ true → Lands cfg c.id w (start_duplex cfg c w) p l k
  unfolding start_duplex
  start_duplex-Lands both =
      let room = replicate cfg.buf_size 0 in
      let c' : Conn = record c { c2u_buf = room; u2c_buf = room } in
      let w1 = write c' w in
      let r = recv c.client_fd (length room) (tag c.id Ops.c2u_recv) in
      let r' = recv c.upstream_fd (length room) (tag c.id Ops.u2c_recv) in
      let wrote = Acts-write cfg c' c w found in
      let client = Acts-post cfg c.id w1 (some c') wrote.own wrote.named r refl refl in
      let upstream = Acts-post cfg c.id (post r w1) (some c') client.own wrote.named r' refl refl in
      taken_over cfg c w p l k found once h c' _ 2 (first_then wrote (Acts-trans client upstream))
        h.going both

  -- With each call the array of its pipe is written.
  piped :
      (c' old : Conn) (v : Relay) (call : Syscall)
      → lookup c'.id v.conns ≡ some old
      → old.id ≡ c'.id
      → Acts cfg c'.id v (write c' (syscall call v)) (some c') 0 0 0
  unfolding syscall
  piped c' old v call there same =
      first_then
        (Acts-note cfg c'.id v (some old) there (λ x. named_of old x same) (call ∷ v.calls) v.errs
          v.completed v.g_completed)
        (Acts-write cfg c' old (syscall call v) there)

  pub start_splice-Lands :
      (q q' : Option Pipe) → cfg.duplex ≡ true → Lands cfg c.id w (start_splice cfg q q' c w) p l k
  unfolding start_splice
  start_splice-Lands q q' both =
      if-rule (λ v. Lands cfg c.id w v p l k) (failed q)
        (λ _. before made (
          failed-Lands cfg c1 w1 p l k made.own (omega (arith, once, made.entries_le c.id)) h.going
            (omega (arith, h.one)) (omega (arith, h.no_close)) (λ _. h.no_relay)))
        (λ _.
          if-rule (λ v. Lands cfg c.id w v p l k) (failed q')
            (λ _. before made (
              before made' (
                failed-Lands cfg c2 w2 p l k made'.own
                  (omega (arith, once, made.entries_le c.id, made'.entries_le c.id)) h.going
                  (omega (arith, h.one)) (omega (arith, h.no_close)) (λ _. h.no_relay))))
            (λ _.
              taken_over cfg c w p l k found once h c2 _ 4
                (first_then made (first_then made' armed)) h.going both))
    where
      c1 : Conn
      c1 = record c { c2u_pipe = pipe_or q c.c2u_pipe }

      w1 : Relay
      w1 = write c1 (syscall (make_pipe q) w)

      made : Acts cfg c.id w w1 (some c1) 0 0 0
      made = piped c1 c w (make_pipe q) found refl

      c2 : Conn
      c2 = record c1 { u2c_pipe = pipe_or q' c1.u2c_pipe }

      w2 : Relay
      w2 = write c2 (syscall (make_pipe q') w1)

      made' : Acts cfg c.id w1 w2 (some c2) 0 0 0
      made' = piped c2 c1 w1 (make_pipe q') made.own refl

      w3 : Relay
      w3 = fill cfg c.id Ops.c2u_splice_in c.client_fd c2.c2u_pipe w2

      w4 : Relay
      w4 = drain_to cfg c.id Ops.c2u_splice_out c2.c2u_pipe c.upstream_fd w3

      w5 : Relay
      w5 = fill cfg c.id Ops.u2c_splice_in c.upstream_fd c2.u2c_pipe w4

      w6 : Relay
      w6 = drain_to cfg c.id Ops.u2c_splice_out c2.u2c_pipe c.client_fd w5

      filled : Acts cfg c.id w2 w3 (some c2) 0 1 0
      filled =
          Acts-post cfg c.id w2 (some c2) made'.own made'.named
            (splice c.client_fd c2.c2u_pipe.write_end cfg.buf_size (tag c.id Ops.c2u_splice_in))
            refl refl

      drained : Acts cfg c.id w3 w4 (some c2) 0 1 0
      drained =
          Acts-post cfg c.id w3 (some c2) filled.own made'.named
            (splice c2.c2u_pipe.read_end c.upstream_fd cfg.buf_size (tag c.id Ops.c2u_splice_out))
            refl refl

      filled' : Acts cfg c.id w4 w5 (some c2) 0 1 0
      filled' =
          Acts-post cfg c.id w4 (some c2) drained.own made'.named
            (splice c.upstream_fd c2.u2c_pipe.write_end cfg.buf_size (tag c.id Ops.u2c_splice_in))
            refl refl

      drained' : Acts cfg c.id w5 w6 (some c2) 0 1 0
      drained' =
          Acts-post cfg c.id w5 (some c2) filled'.own made'.named
            (splice c2.u2c_pipe.read_end c.client_fd cfg.buf_size (tag c.id Ops.u2c_splice_out))
            refl refl

      armed : Acts cfg c.id w2 w6 (some c2) 0 4 0
      armed = Acts-trans filled (Acts-trans drained (Acts-trans filled' drained'))
