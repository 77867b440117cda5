-- ===== src/Worker/Lifecycle/Closing.antt =====
-- `closeConn` and `fail` of flashrelay/worker.go take an open connection to its closing phase, or
-- out of the map where there is no fd to close.
use flash_relay.Base.{
  ℕ, ◌+◌, ◌≤◌, ◌<◌, ◌≡◌, refl, true, false, none, some, arith, inr, if-rule, ◌==◌, ◌∙◌, ap,
}
use flash_relay.Base.Int.{is_pos, ℤ}
use flash_relay.Worker.State.{Conn, Worker, close}
use flash_relay.Worker.Ops
use flash_relay.Worker.Ops.{op_code, ud, max_id}
use flash_relay.Worker.Conns.{
  find, put, delete, count_id, count_id-put, find-put_self, find-delete_self,
}
use flash_relay.Worker.Actions.{
  post, write, post_close, close_conn, fail, fds_to_close, count_dead, count_errors,
}
use flash_relay.Worker.Tokens.{tokens, tokens-own}
use flash_relay.Worker.Lifecycle.{bit, PhaseAt, IsShut}

conns-post_close : (id : ℕ) (fd : ℤ) (w : Worker) → (post_close id fd w).conns ≡ w.conns
unfolding post_close post
conns-post_close id fd w = ground arith

close_tokens :
    (id : ℕ) (fd : ℤ) (w : Worker)
    → id < max_id
    → (tokens id (post_close id fd w).posted).close ≡ (tokens id w.posted).close + bit (is_pos fd)
unfolding post_close post
close_tokens id fd w small =
    ground (arith, tokens-own id Ops.close (close fd (ud id (op_code Ops.close))) w.posted)

module _ (c old : Conn) (w : Worker) (d : ℕ) (small : c.id < max_id)
    (unique : count_id c.id w.conns ≤ 1) (found : find c.id w.conns ≡ some old)
    (none_yet : (tokens c.id w.posted).close ≡ 0) where
  pub close_conn-Phase :
      c.closing ≡ false → 0 < bit c.counted + bit c.relay_started → PhaseAt c.id d (close_conn c w)
  unfolding close_conn write
  close_conn-Phase is_open due = rw is_open (
      if-rule (PhaseAt c.id d) (fds_to_close c == 0) (λ _. rw gone tt)
        (λ more. rw there (inr (refl, shut (ground arith)))))
    where
      marked : Conn
      marked = record c { closing = true; closes_left = fds_to_close c }

      w1 : Worker
      w1 = write marked (count_dead w)

      w2 : Worker
      w2 = post_close c.id c.client_fd w1

      w3 : Worker
      w3 = post_close c.id c.upstream_fd w2

      conns_after : w3.conns ≡ put marked w.conns
      conns_after = conns-post_close c.id c.upstream_fd w2 ∙ conns-post_close c.id c.client_fd w1

      there : find c.id w3.conns ≡ some marked
      there = ap (find c.id) conns_after ∙ find-put_self marked old w.conns found

      gone : find c.id (delete c.id w3.conns) ≡ none
      gone =
          find-delete_self c.id w3.conns (rw (conns_after, count_id-put c.id marked w.conns) unique)

      shut : 0 < fds_to_close c → IsShut marked (tokens c.id w3.posted)
      shut some_fd = record {
        closes = ground (
          arith,
          close_tokens c.id c.client_fd w1 small,
          close_tokens c.id c.upstream_fd w2 small,
        );
        some_left = some_fd;
        accounted = due;
      }

-- A failure brings its own charge.
pub fail-Phase :
    (c old : Conn) (w : Worker) (d : ℕ)
    → c.id < max_id
    → count_id c.id w.conns ≤ 1
    → find c.id w.conns ≡ some old
    → (tokens c.id w.posted).close ≡ 0
    → c.closing ≡ false
    → PhaseAt c.id d (fail c w)
unfolding fail
fail-Phase c old w d small unique found none_yet is_open =
    if-rule (PhaseAt c.id d) c.counted
      (λ charged. close_conn-Phase c old w d small unique found none_yet is_open (ground arith))
      (λ _. close_conn-Phase c' c' w1 d small unique' found' none_yet' is_open (ground arith))
  where
    c' : Conn
    c' = record c { counted = true }

    w1 : Worker
    w1 = write c' (count_errors w)

    unique' : count_id c.id w1.conns ≤ 1
    unique' = unfold write in rw (count_id-put c.id c' w.conns) unique

    found' : find c.id w1.conns ≡ some c'
    found' = unfold write in find-put_self c' old w.conns found

    none_yet' : (tokens c.id w1.posted).close ≡ 0
    none_yet' = unfold write in none_yet
