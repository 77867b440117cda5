-- ===== src/Relay/Acts/Closing.antt =====
-- What `closeConn` and `case opClose` of research/gate/cmd/relay-uring/main.go do.
use flash_relay.Base.{
  ℕ, ◌-◌, ◌≤◌, ◌≡◌, refl, true, false, Bool, Option, none, some, arith, ◌==◌, if◌then◌else◌,
  if-rule, inl, inr, Bool-cases, leb,
}
use flash_relay.Base.Int.{ℤ, is_pos}
use flash_relay.Base.Table.{lookup, delete, entries}
use flash_relay.Relay.State.{Pipe, Conn, RelayCfg, close, Relay}
use flash_relay.Relay.Ops
use flash_relay.Relay.Actions.{
  tag, syscall, write, close_end, close_ends, post_close, close_conn, fds_to_close,
}
use flash_relay.Relay.Cases.{close_found}
use flash_relay.Relay.Acts.{Acts, Acts-trans, first_then, then_last}
use flash_relay.Relay.Acts.Moves.{Acts-note, Acts-post, Acts-put_conn, Acts-write, Acts-delete}

abbrev pub bit : Bool → ℕ
bit b = if b then 1 else 0

module _ (cfg : RelayCfg) (cid : ℕ) (w : Relay) (o : Option Conn) (found : lookup cid w.conns ≡ o)
    (named : (x : Conn) → o ≡ some x → x.id ≡ cid) where
  pub Acts-post_close :
      (id : ℕ) (fd : ℤ) → id ≡ cid → Acts cfg cid w (post_close id fd w) o 0 0 (bit (is_pos fd))
  unfolding post_close
  Acts-post_close id fd e = elim (Bool-cases (is_pos fd)) [
    | inl p ↦ rw p (Acts-post cfg cid w o found named (close fd (tag id Ops.close)) e refl)
    | inr n ↦ rw n (Acts-note cfg cid w o found named w.calls w.errs w.completed w.g_completed)
  ]

  Acts-close_end : (fd : ℤ) → Acts cfg cid w (close_end fd w) o 0 0 0
  unfolding close_end syscall
  Acts-close_end fd =
      if-rule (λ v. Acts cfg cid w v o 0 0 0) (is_pos fd)
        (λ _. Acts-note cfg cid w o found named _ w.errs w.completed w.g_completed)
        (λ _. Acts-note cfg cid w o found named w.calls w.errs w.completed w.g_completed)

module _ (cfg : RelayCfg) (cid : ℕ) (w : Relay) (o : Option Conn) (found : lookup cid w.conns ≡ o)
    (named : (x : Conn) → o ≡ some x → x.id ≡ cid) where
  Acts-close_ends : (p : Pipe) → Acts cfg cid w (close_ends p w) o 0 0 0
  unfolding close_ends
  Acts-close_ends p =
      let w1 = close_end p.read_end w in
      let first = Acts-close_end cfg cid w o found named p.read_end in
      first_then first (Acts-close_end cfg cid w1 o first.own named p.write_end)

module _ (cfg : RelayCfg) (cid : ℕ) (w : Relay) (o : Option Conn) (found : lookup cid w.conns ≡ o)
    (named : (x : Conn) → o ≡ some x → x.id ≡ cid) where
  Acts-close_pipes :
      (on : Bool) (p q : Pipe)
      → Acts cfg cid w (if on then close_ends q (close_ends p w) else w) o 0 0 0
  Acts-close_pipes true p q =
      let w1 = close_ends p w in
      let first = Acts-close_ends cfg cid w o found named p in
      first_then first (Acts-close_ends cfg cid w1 o first.own named q)
  Acts-close_pipes false p q =
      Acts-note cfg cid w o found named w.calls w.errs w.completed w.g_completed

pub named_of : {cid : ℕ} (c x : Conn) → c.id ≡ cid → some c ≡ some x → x.id ≡ cid
named_of c x h e = cc

-- What is left of an open connection's entry: none where it has no fd to close.
abbrev pub shut : Conn → Option Conn
shut c =
    if fds_to_close c == 0
    then none
    else some (record c { closing = true; closes_left = fds_to_close c })

module _ (cfg : RelayCfg) (c old : Conn) (w : Relay) (found : lookup c.id w.conns ≡ some old)
    (once : entries c.id w.conns ≤ 1) (named : old.id ≡ c.id) where
  pub Acts-close_conn :
      c.closing ≡ false → Acts cfg c.id w (close_conn cfg c w) (shut c) 0 0 (fds_to_close c)
  unfolding close_conn
  Acts-close_conn going = rw going (elim (Bool-cases (fds_to_close c == 0)) [
    | inl zero_left ↦ rw zero_left (
        then_last closes
          (then_last deleted (Acts-put_conn cfg c.id w4 none deleted.own (λ x e. cc) c')))
    | inr more ↦ rw more closes
  ])
    where
      c' : Conn
      c' = record c { closing = true; closes_left = fds_to_close c }

      w1 : Relay
      w1 = if cfg.splice then close_ends c.u2c_pipe (close_ends c.c2u_pipe w) else w

      pipes : Acts cfg c.id w w1 (some old) 0 0 0
      pipes =
          Acts-close_pipes cfg c.id w (some old) found (λ x e. named_of old x named e) cfg.splice
            c.c2u_pipe c.u2c_pipe

      wrote : Acts cfg c.id w1 (write c' w1) (some c') 0 0 0
      wrote = Acts-write cfg c' old w1 pipes.own

      w2 : Relay
      w2 = post_close c.id c.client_fd (write c' w1)

      client : Acts cfg c.id (write c' w1) w2 (some c') 0 0 (bit (is_pos c.client_fd))
      client =
          Acts-post_close cfg c.id (write c' w1) (some c') wrote.own wrote.named c.id c.client_fd
            refl

      w3 : Relay
      w3 = post_close c.id c.upstream_fd w2

      upstream : Acts cfg c.id w2 w3 (some c') 0 0 (bit (is_pos c.upstream_fd))
      upstream =
          Acts-post_close cfg c.id w2 (some c') client.own wrote.named c.id c.upstream_fd refl

      closes : Acts cfg c.id w w3 (some c') 0 0 (fds_to_close c)
      closes = first_then pipes (first_then wrote (Acts-trans client upstream))

      w4 : Relay
      w4 = record w3 { conns = delete c.id w3.conns }

      deleted : Acts cfg c.id w3 w4 none 0 0 0
      deleted = Acts-delete cfg c.id w3 (omega (arith, closes.entries_le c.id))

-- `case opClose` counts one close less, and the last one deletes the entry.
module _ (cfg : RelayCfg) (c : Conn) (w : Relay) (found : lookup c.id w.conns ≡ some c)
    (once : entries c.id w.conns ≤ 1) where
  pub Acts-close_found :
      Acts cfg c.id w
        (close_found cfg c.id c w)
        (if leb (c.closes_left - 1) 0
          then none
          else some (record c { closes_left = c.closes_left - 1 }))
        0
        0
        0
  unfolding close_found
  Acts-close_found = elim (Bool-cases (leb (c.closes_left - 1) 0)) [
    | inl last ↦ rw last (
        first_then wrote
          (first_then deleted (Acts-put_conn cfg c.id w2 none deleted.own (λ x e. cc) c')))
    | inr more ↦ rw more wrote
  ]
    where
      c' : Conn
      c' = record c { closes_left = c.closes_left - 1 }

      w1 : Relay
      w1 = write c' w

      wrote : Acts cfg c.id w w1 (some c') 0 0 0
      wrote = Acts-write cfg c' c w found

      w2 : Relay
      w2 = record w1 { conns = delete c.id w1.conns }

      deleted : Acts cfg c.id w1 w2 none 0 0 0
      deleted = Acts-delete cfg c.id w1 (omega (arith, once, wrote.entries_le c.id))
