-- ===== src/Worker/Ledger/Cases.antt =====
-- What the completion cases of flashrelay/worker.go charge that concern one connection of the map.
use flash_relay.Base.{ℕ, ◌+◌, ◌≡◌, ◌∙◌, refl, ap, sym, true, false, some, arith, ltb, if-rule}
use mathlib.Core.Path.{subst}
use flash_relay.Base.Int.{ℤ, is_neg, is_nonpos, is_pos, pos_part}
use flash_relay.Worker.State.{Limits, Conn, Worker, Counters}
use flash_relay.Worker.Ops
use flash_relay.Worker.Ops.{Op}
use flash_relay.Worker.Conns.{find, find-id, find-put_self, put, le_total-find, total}
use flash_relay.Worker.Actions.{
  post, syscall, write, start_duplex, forward_init, close_conn, fail, count_c2u, post_recv_req,
}
use flash_relay.Worker.Handlers.{
  recv_req_open, reply_client_open, reply_more_open, reject_send_open, send_up_open, c2u_recv_open,
  c2u_send_open, u2c_recv_open, u2c_send_open, with_conn, with_conn-rule, reply_progress,
}
use flash_relay.Worker.Ledger.{Booked, Booked_refl, Booked_trans, Booked_of, unnumbered, buckets}
use flash_relay.Worker.Ledger.Closures.{
  Agrees, agrees, Agrees-refl, booked, start_duplex-Booked, forward_init-Booked, close_conn-Booked,
  fail-Booked,
}

-- A case about the connection of an id that is in the map and open, which has a client fd.
pub numbered-rule :
    (cid : ℕ) (rest : Conn → Worker → Worker) (w : Worker)
    → total unnumbered w.conns ≡ 0
    → ((c : Conn)
        → find c.id w.conns ≡ some c
        → c.closing ≡ false
        → is_pos c.client_fd ≡ true
        → Booked 0 w (rest c w))
    → Booked 0 w (with_conn cid rest w)
numbered-rule cid rest w numbered go =
    with_conn-rule (Booked 0 w) cid rest w (Booked_refl w) (λ c e going.
      let same = find-id cid c w.conns e in
      go c (ap (λ i. find i w.conns) same ∙ e) going
        (ground (arith, le_total-find unnumbered cid c w.conns e)))

-- The counters that the ledger reads.
pub record SameBooks (cnt cnt' : Counters) : Type 0 where
  pub buckets_eq : buckets cnt ≡ buckets cnt'
  pub accepted_eq : cnt.accepted ≡ cnt'.accepted
  pub live_eq : cnt.live ≡ cnt'.live

pub SameBooks-refl : (cnt : Counters) → SameBooks cnt cnt
SameBooks-refl cnt = record { buckets_eq = refl; accepted_eq = refl; live_eq = refl }

module _ (c : Conn) (w : Worker) (found : find c.id w.conns ≡ some c) where
  -- The case writes the connection, and bytes are all that it counts.
  pub kept :
      (c' : Conn) (v : Worker)
      → Agrees c' c
      → v.conns ≡ put c' w.conns
      → SameBooks v.cnt w.cnt
      → Booked 0 w v
  kept c' v same conns_eq books =
      Booked_of 0 w (record w { conns = put c' w.conns; cnt = v.cnt }) v (sym conns_eq) refl
        (booked 0 c' c w v.cnt (ap (λ i. find i w.conns) same.id_eq ∙ found) same.fd_eq
          (ground (arith, same.counted_eq, books.buckets_eq, books.accepted_eq))
          (ground (arith, same.closing_eq, books.live_eq)))

  -- It goes on with one of the closures.
  pub onward :
      (c' : Conn) (v : Worker) (done : Conn → Worker → Worker)
      → Agrees c' c
      → v.conns ≡ put c' w.conns
      → SameBooks v.cnt w.cnt
      → c.closing ≡ false
      → is_pos c.client_fd ≡ true
      → ((u : Worker)
          → find c'.id u.conns ≡ some c'
          → c'.closing ≡ false
          → is_pos c'.client_fd ≡ true
          → Booked 0 u (done c' u))
      → Booked 0 w (done c' v)
  onward c' v done same conns_eq books going held go =
      Booked_trans 0 0 w v (done c' v) (kept c' v same conns_eq books) (
        go v
          (ap (find c'.id) conns_eq
            ∙ find-put_self c' c w.conns (ap (λ i. find i w.conns) same.id_eq ∙ found))
          (same.closing_eq ∙ going) (ap is_pos same.fd_eq ∙ held))

module _ (c : Conn) (w : Worker) (found : find c.id w.conns ≡ some c) (going : c.closing ≡ false)
    (held : is_pos c.client_fd ≡ true) where
  failed : Booked 0 w (fail c w)
  failed = fail-Booked c c w found (Agrees-refl c) going held

  books : SameBooks w.cnt w.cnt
  books = SameBooks-refl w.cnt

  pub of_recv_req : (res : ℤ) → Booked 0 w (recv_req_open res c w)
  unfolding recv_req_open write
  of_recv_req res =
      let c' : Conn = record c { req_n = c.req_n + pos_part res; last_tick = w.tick } in
      if-rule (Booked 0 w) (is_nonpos res) (λ _. failed)
        (λ _. kept c w found c' _ (agrees c' c refl refl refl refl) refl books)

  pub of_send_up : (lim : Limits) (res : ℤ) → Booked 0 w (send_up_open lim res c w)
  unfolding send_up_open write post
  of_send_up lim res =
      let c' : Conn = record c { init_sent = c.init_sent + pos_part res } in
      let w1 = count_c2u (pos_part res) (write c' w) in
      let same = agrees c' c refl refl refl refl in
      let counts : SameBooks w1.cnt w.cnt = record {
        buckets_eq = refl;
        accepted_eq = refl;
        live_eq = refl;
      } in
      if-rule (Booked 0 w) (is_nonpos res) (λ _. failed)
        (λ _.
          if-rule (Booked 0 w) (ltb c'.init_sent c'.req_n)
            (λ _. kept c w found c' _ same refl counts)
            (λ _.
              onward c w found c' w1 (start_duplex lim) same refl counts going held
                (λ u f _ _. start_duplex-Booked c' c' u f (Agrees-refl c') lim)))

  pub of_c2u_recv : (res : ℤ) → Booked 0 w (c2u_recv_open res c w)
  unfolding c2u_recv_open write post syscall
  of_c2u_recv res =
      let ended : Conn = record c { client_read_done = true } in
      let filled : Conn = record c { last_tick = w.tick; c2u_off = 0; c2u_end = pos_part res } in
      let same = agrees ended c refl refl refl refl in
      if-rule (Booked 0 w) (is_neg res) (λ _. failed)
        (λ _.
          if-rule (Booked 0 w) (is_nonpos res)
            (λ _.
              if-rule (Booked 0 w) c.upstream_read_done
                (λ _.
                  onward c w found ended _ close_conn same refl books going held
                    (λ u f g h. close_conn-Booked ended ended u f (Agrees-refl ended) g h))
                (λ _. kept c w found ended _ same refl books))
            (λ _.
              kept c w found filled _ (agrees filled c refl refl refl refl) refl
                (record { buckets_eq = refl; accepted_eq = refl; live_eq = refl })))

  pub of_u2c_recv : (res : ℤ) → Booked 0 w (u2c_recv_open res c w)
  unfolding u2c_recv_open write post syscall
  of_u2c_recv res =
      let ended : Conn = record c { upstream_read_done = true } in
      let filled : Conn = record c { last_tick = w.tick; u2c_off = 0; u2c_end = pos_part res } in
      let same = agrees ended c refl refl refl refl in
      if-rule (Booked 0 w) (is_neg res) (λ _. failed)
        (λ _.
          if-rule (Booked 0 w) (is_nonpos res)
            (λ _.
              if-rule (Booked 0 w) c.client_read_done
                (λ _.
                  onward c w found ended _ close_conn same refl books going held
                    (λ u f g h. close_conn-Booked ended ended u f (Agrees-refl ended) g h))
                (λ _. kept c w found ended _ same refl books))
            (λ _.
              kept c w found filled _ (agrees filled c refl refl refl refl) refl
                (record { buckets_eq = refl; accepted_eq = refl; live_eq = refl })))

  pub of_c2u_send : (res : ℤ) → Booked 0 w (c2u_send_open res c w)
  unfolding c2u_send_open write post
  of_c2u_send res =
      let c' : Conn = record c { c2u_off = c.c2u_off + pos_part res } in
      let sent = λ (v : Worker) (e : v.conns ≡ put c' w.conns) (f : v.cnt ≡ w.cnt).
        kept c w found c' v (agrees c' c refl refl refl refl) e
          (subst (λ n. SameBooks n w.cnt) (sym f) books) in
      if-rule (Booked 0 w) (is_nonpos res) (λ _. failed)
        (λ _.
          if-rule (Booked 0 w) (ltb c'.c2u_off c'.c2u_end) (λ _. sent _ refl refl)
            (λ _.
              if-rule (Booked 0 w) c.client_read_done (λ _. sent _ refl refl)
                (λ _. sent _ refl refl)))

  pub of_u2c_send : (res : ℤ) → Booked 0 w (u2c_send_open res c w)
  unfolding u2c_send_open write post
  of_u2c_send res =
      let c' : Conn = record c { u2c_off = c.u2c_off + pos_part res } in
      let sent = λ (v : Worker) (e : v.conns ≡ put c' w.conns) (f : v.cnt ≡ w.cnt).
        kept c w found c' v (agrees c' c refl refl refl refl) e
          (subst (λ n. SameBooks n w.cnt) (sym f) books) in
      if-rule (Booked 0 w) (is_nonpos res) (λ _. failed)
        (λ _.
          if-rule (Booked 0 w) (ltb c'.u2c_off c'.u2c_end) (λ _. sent _ refl refl)
            (λ _.
              if-rule (Booked 0 w) c.upstream_read_done (λ _. sent _ refl refl)
                (λ _. sent _ refl refl)))

  -- The common shape of the reply cases.
  progress :
      (op : Op) (res : ℤ) (done : Conn → Worker → Worker)
      → ((x : Conn) (u : Worker)
          → find x.id u.conns ≡ some x
          → x.closing ≡ false
          → is_pos x.client_fd ≡ true
          → Booked 0 u (done x u))
      → Booked 0 w (reply_progress op res done c w)
  unfolding write post
  progress op res done go =
      let c' : Conn = record c { reply_off = c.reply_off + pos_part res } in
      let same = agrees c' c refl refl refl refl in
      if-rule (Booked 0 w) (ltb c'.reply_off c'.reply_end)
        (λ _. kept c w found c' _ same refl books)
        (λ _. onward c w found c' _ done same refl books going held (go c'))

  pub of_reply_client : (lim : Limits) (res : ℤ) → Booked 0 w (reply_client_open lim res c w)
  unfolding reply_client_open
  of_reply_client lim res =
      if-rule (Booked 0 w) (is_nonpos res) (λ _. failed)
        (λ _.
          progress Ops.reply_client res (forward_init lim)
            (λ x u f _ _. forward_init-Booked x x u f (Agrees-refl x) lim))

  pub of_reply_more : (res : ℤ) → Booked 0 w (reply_more_open res c w)
  unfolding reply_more_open post_recv_req post
  of_reply_more res =
      if-rule (Booked 0 w) (is_nonpos res) (λ _. failed)
        (λ _.
          progress Ops.reply_more res post_recv_req
            (λ x u _ _ _. Booked_of 0 u u _ refl refl (Booked_refl u)))

  pub of_reject_send : (res : ℤ) → Booked 0 w (reject_send_open res c w)
  unfolding reject_send_open
  of_reject_send res =
      let closes =
        λ (x : Conn) (u : Worker) (f : find x.id u.conns ≡ some x) (g : x.closing ≡ false)
            (h : is_pos x.client_fd ≡ true).
          close_conn-Booked x x u f (Agrees-refl x) g h in
      if-rule (Booked 0 w) (is_nonpos res) (λ _. closes c w found going held)
        (λ _. progress Ops.reject_send res close_conn closes)
