-- ===== src/Relay/Sizes.antt =====
-- The buffers of the structs of research/gate/cmd/relay-uring/main.go: those of a connection and those
-- of the freelist keep the lengths that getConn makes them with.
pub mod Cases
pub mod Runs
use flash_relay.Base.{
  if◌then◌else◌, true, ℕ, ◌≡◌, ◌==◌, refl, List, [], ◌∷◌, none, some, inl, inr, length,
  length-replicate, if-rule, Bool-cases, Option-cases, sym,
}
use mathlib.Core.Path.{subst}
use flash_relay.Base.Int.{ℤ, is_pos}
use flash_relay.Base.Table.{
  lookup, insert, delete, EachValue, EachValue-lookup, EachValue-insert, EachValue-delete,
}
use flash_relay.Relay.State.{Pipe, Conn, RelayCfg, Relay}
use flash_relay.Relay.Actions.{
  made_conn, get_conn, put_conn, post, syscall, write, close_end, close_ends, post_close,
  close_conn, fds_to_close,
}
use flash_relay.Relay.Cases.{with_conn}

-- `conn{reqBuf: make([]byte, reqLen), respBuf: make([]byte, replyLen)}`, as to the lengths.
abbrev pub Sized : RelayCfg → Conn → Type 0
Sized cfg c = (length c.req_buf ≡ cfg.req_len) × (length c.resp_buf ≡ cfg.reply_len)

abbrev pub AllSized : RelayCfg → List Conn → Type 0
AllSized cfg [] = Unit {0}
AllSized cfg (c ∷ cs) = Sized cfg c × AllSized cfg cs

abbrev pub Buffered : RelayCfg → Relay → Type 0
Buffered cfg w = AllSized cfg w.conn_free × EachValue (Sized cfg) w.conns

module _ (cfg : RelayCfg) where
  made_conn-Sized : Sized cfg (made_conn cfg)
  made_conn-Sized = (length-replicate cfg.req_len 0, length-replicate cfg.reply_len 0)

  pub get_conn-Buffered :
      (w : Relay) → Buffered cfg w → Sized cfg (get_conn cfg w).0 × Buffered cfg (get_conn cfg w).1
  unfolding get_conn
  get_conn-Buffered w h =
      if-rule (λ (x : Conn × Relay). Sized cfg x.0 × Buffered cfg x.1) cfg.duplex
        (λ _. (made_conn-Sized, h)) (λ _. from w.conn_free h.0)
    where
      from :
          (free : List Conn)
          → AllSized cfg free
          → (let x : Conn × Relay = elim free [
            | [] ↦ (made_conn cfg, w)
            | cc ∷ rest ↦ (cc, record w { conn_free = rest })
          ] in
              Sized cfg x.0 × Buffered cfg x.1)
      from [] all = (made_conn-Sized, h)
      from (c ∷ cs) all = (all.0, (all.1, h.1))

  pub put_conn-Buffered :
      (c : Conn) (w : Relay) → Sized cfg c → Buffered cfg w → Buffered cfg (put_conn cfg c w)
  unfolding put_conn
  put_conn-Buffered c w s h = if-rule (Buffered cfg) cfg.duplex (λ _. h) (λ _. ((s, h.0), h.1))

  pub write-Buffered :
      (c : Conn) (w : Relay) → Sized cfg c → Buffered cfg w → Buffered cfg (write c w)
  unfolding write
  write-Buffered c w s h = (h.0, EachValue-insert (Sized cfg) c.id c w.conns s h.1)

  pub deleted-Buffered :
      (k : ℕ) (w : Relay) → Buffered cfg w → Buffered cfg (record w { conns = delete k w.conns })
  deleted-Buffered k w h = (h.0, EachValue-delete (Sized cfg) k w.conns h.1)

  post_close-Buffered :
      (id : ℕ) (fd : ℤ) (w : Relay) → Buffered cfg w → Buffered cfg (post_close id fd w)
  unfolding post_close post
  post_close-Buffered id fd w h = if-rule (Buffered cfg) (is_pos fd) (λ _. h) (λ _. h)

  close_end-Buffered : (fd : ℤ) (w : Relay) → Buffered cfg w → Buffered cfg (close_end fd w)
  unfolding close_end syscall
  close_end-Buffered fd w h = if-rule (Buffered cfg) (is_pos fd) (λ _. h) (λ _. h)

  close_ends-Buffered : (p : Pipe) (w : Relay) → Buffered cfg w → Buffered cfg (close_ends p w)
  unfolding close_ends
  close_ends-Buffered p w h = close_end-Buffered p.write_end _ (close_end-Buffered p.read_end w h)

  pub close_conn-Buffered :
      (c : Conn) (w : Relay) → Sized cfg c → Buffered cfg w → Buffered cfg (close_conn cfg c w)
  unfolding close_conn
  close_conn-Buffered c w s h =
      let n = fds_to_close c in
      let c' : Conn = record c { closing = true; closes_left = n } in
      let w1 = if cfg.splice then close_ends c.u2c_pipe (close_ends c.c2u_pipe w) else w in
      let piped : Buffered cfg w1 =
        if-rule (Buffered cfg) cfg.splice
          (λ _. close_ends-Buffered c.u2c_pipe _ (close_ends-Buffered c.c2u_pipe w h)) (λ _. h) in
      let w2 = post_close c.id c.client_fd (write c' w1) in
      let posted =
        post_close-Buffered c.id c.upstream_fd w2
          (post_close-Buffered c.id c.client_fd (write c' w1) (write-Buffered c' w1 s piped)) in
      let w3 = post_close c.id c.upstream_fd w2 in
      if-rule (Buffered cfg) c.closing (λ _. h)
        (λ _.
          if-rule (Buffered cfg) (n == 0)
            (λ _.
              put_conn-Buffered c' (record w3 { conns = delete c.id w3.conns }) s
                (deleted-Buffered c.id w3 posted))
            (λ _. posted))

  -- A case relies on the lengths of the connection that it finds.
  pub with_conn-Buffered :
      (cid : ℕ) (rest : Conn → Relay → Relay) (w : Relay)
      → Buffered cfg w
      → ((c : Conn) → Sized cfg c → Buffered cfg (rest c w))
      → Buffered cfg (with_conn cid rest w)
  with_conn-Buffered cid rest w h go = elim (Option-cases (lookup cid w.conns)) [
    | inl e ↦ rw (e, with_conn) h
    | inr (c, e) ↦ rw (e, with_conn) (go c (EachValue-lookup (Sized cfg) cid c w.conns h.1 e))
  ]
