-- ===== src/Worker/Ledger/Closures.antt =====
-- What the closures of flashrelay/worker.go charge, when they act on a connection of the map.
use flash_relay.Base.{
  ℕ, ◌+◌, ◌%◌, not, ◌≡◌, ◌∙◌, refl, sym, ap, [], replicate, true, false, some, arith, if-rule, leb,
  ◌==◌,
}
use flash_relay.Base.Int.{ℤ, is_pos}
use flash_relay.Base.Words.{u64_mod}
use flash_relay.Worker.State.{Limits, Conn, Worker, Counters}
use flash_relay.Worker.Conns.{find, put, total-put, find-put_self}
use flash_relay.Worker.Actions.{
  post, write, post_close, close_conn, fail, fds_to_close, count_dead, count_errors, start_duplex,
  forward_init,
}
use flash_relay.Worker.Lifecycle.{bit}
use flash_relay.Worker.Ledger.{
  Booked, Booked_trans, Booked_of, buckets, uncharged, open_conn, unnumbered,
}

conns-post_close : (id : ℕ) (fd : ℤ) (w : Worker) → (post_close id fd w).conns ≡ w.conns
unfolding post_close post
conns-post_close id fd w = ground arith

cnt-post_close : (id : ℕ) (fd : ℤ) (w : Worker) → (post_close id fd w).cnt ≡ w.cnt
unfolding post_close post
cnt-post_close id fd w = ground arith

-- What a handler may not change behind the ledger's back.
pub record Agrees (c old : Conn) : Type 0 where
  pub id_eq : c.id ≡ old.id
  pub counted_eq : c.counted ≡ old.counted
  pub closing_eq : c.closing ≡ old.closing
  pub fd_eq : c.client_fd ≡ old.client_fd

pub agrees :
    (c old : Conn)
    → c.id ≡ old.id
    → c.counted ≡ old.counted
    → c.closing ≡ old.closing
    → c.client_fd ≡ old.client_fd
    → Agrees c old
agrees c old i e f g = record { id_eq = i; counted_eq = e; closing_eq = f; fd_eq = g }

pub Agrees-refl : (c : Conn) → Agrees c c
Agrees-refl c = agrees c c refl refl refl refl

-- The connection and the counters are written at once.
pub booked :
    (n : ℕ) (c old : Conn) (w : Worker) (cnt : Counters)
    → find c.id w.conns ≡ some old
    → c.client_fd ≡ old.client_fd
    → (buckets cnt + uncharged c + w.cnt.accepted) % u64_mod
      ≡ (buckets w.cnt + uncharged old + cnt.accepted + n) % u64_mod
    → (cnt.live + open_conn old) % u64_mod ≡ (w.cnt.live + open_conn c) % u64_mod
    → Booked n w (record w { conns = put c w.conns; cnt = cnt })
booked n c old w cnt found fd charge live = record {
  charged = omega (arith, total-put uncharged c old w.conns found);
  living = omega (arith, total-put open_conn c old w.conns found);
  numbered =
      omega (arith, total-put unnumbered c old w.conns found, ap (λ x. bit (not (is_pos x))) fd);
}

module _ (c old : Conn) (w : Worker) (found : find c.id w.conns ≡ some old)
    (same : Agrees c old) where
  -- A write of what the ledger does not read.
  pub write-Booked : Booked 0 w (write c w)
  unfolding write
  write-Booked =
      booked 0 c old w w.cnt found same.fd_eq (ground (arith, same.counted_eq))
        (ground (arith, same.closing_eq))

  pub start_duplex-Booked : (lim : Limits) → Booked 0 w (start_duplex lim c w)
  unfolding start_duplex write post
  start_duplex-Booked lim =
      Booked_of 0 w (record w { conns = put (started lim) w.conns }) _ refl refl
        (booked 0 (started lim) old w w.cnt found same.fd_eq (ground (arith, same.counted_eq))
          (ground (arith, same.closing_eq)))
    where
      started : Limits → Conn
      started lim = record c {
        relay_started = true;
        req_buf = [];
        reply_buf = [];
        c2u_buf = replicate lim.buf_size 0;
        u2c_buf = replicate lim.buf_size 0;
      }

module _ (c old : Conn) (w : Worker) (found : find c.id w.conns ≡ some old)
    (same : Agrees c old) where
  pub forward_init-Booked : (lim : Limits) → Booked 0 w (forward_init lim c w)
  unfolding forward_init post
  forward_init-Booked lim =
      if-rule (Booked 0 w) (leb c.req_n c.init_sent)
        (λ _. start_duplex-Booked c old w found same lim)
        (λ _. Booked_of 0 w (write c w) _ refl refl (write-Booked c old w found same))

  -- An open connection that has a client fd closes it, so the close of the fd is still to come.
  pub close_conn-Booked :
      c.closing ≡ false → is_pos c.client_fd ≡ true → Booked 0 w (close_conn c w)
  unfolding close_conn
  close_conn-Booked going held = rw going (
      if-rule (Booked 0 w) (fds_to_close c == 0) (λ none_left. absurd (ground (arith, held)))
        (λ _. Booked_of 0 w w1 w3 (sym conns_eq) (sym cnt_eq) marked-Booked))
    where
      marked : Conn
      marked = record c { closing = true; closes_left = fds_to_close c }

      w1 : Worker
      w1 = write marked (count_dead w)

      w2 : Worker
      w2 = post_close c.id c.client_fd w1

      w3 : Worker
      w3 = post_close c.id c.upstream_fd w2

      conns_eq : w3.conns ≡ w1.conns
      conns_eq = conns-post_close c.id c.upstream_fd w2 ∙ conns-post_close c.id c.client_fd w1

      cnt_eq : w3.cnt ≡ w1.cnt
      cnt_eq = cnt-post_close c.id c.upstream_fd w2 ∙ cnt-post_close c.id c.client_fd w1

      marked-Booked : Booked 0 w w1
      marked-Booked =
          unfold write in
          booked 0 marked old w (count_dead w).cnt found same.fd_eq
            (ground (arith, same.counted_eq)) (ground (arith, same.closing_eq, going))

-- A failure charges the connection unless it is charged already.
pub fail-Booked :
    (c old : Conn) (w : Worker)
    → find c.id w.conns ≡ some old
    → Agrees c old
    → c.closing ≡ false
    → is_pos c.client_fd ≡ true
    → Booked 0 w (fail c w)
unfolding fail write
fail-Booked c old w found same going held =
    if-rule (Booked 0 w) c.counted (λ _. close_conn-Booked c old w found same going held)
      (λ fresh.
        let c' : Conn = record c { counted = true } in
        let w1 = write c' (count_errors w) in
        let paid =
          booked 0 c' old w (count_errors w).cnt found same.fd_eq
            (ground (arith, same.counted_eq, fresh)) (ground (arith, same.closing_eq)) in
        Booked_trans 0 0 w w1 (close_conn c' w1) paid (
          close_conn-Booked c' c' w1 (find-put_self c' old w.conns found) (Agrees-refl c') going
            held))
