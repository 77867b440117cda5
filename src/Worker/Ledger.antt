-- ===== src/Worker/Ledger.antt =====
-- The counters of flashrelay/worker.go as a ledger: an accepted connection is charged to one terminal
-- counter, at once or when its fds are closed, and `live` follows the connections that are open.
pub mod Closures
pub mod Cases
pub mod Decisions
pub mod Events
pub mod Switch
pub mod Balance
use flash_relay.Base.{ℕ, ◌+◌, ◌≤◌, ◌≡◌, ◌%◌, not, sym, arith}
use mathlib.Core.Path.{subst}
use flash_relay.Base.Int.{is_pos}
use flash_relay.Base.Words.{u64_mod}
use flash_relay.Worker.State.{Conn, Counters, Worker}
use flash_relay.Worker.Conns.{total}
use flash_relay.Worker.Lifecycle.{bit}

-- The terminal counters of `Stats`.
abbrev pub buckets : Counters → ℕ
buckets c = c.completed + c.rejected + c.shed + c.idle_closed + c.errors

-- Not charged yet, still open, and without a client fd that `closeConn` would close.
abbrev pub uncharged : Conn → ℕ
uncharged c = bit (not c.counted)

abbrev pub open_conn : Conn → ℕ
open_conn c = bit (not c.closing)

abbrev pub unnumbered : Conn → ℕ
unnumbered c = bit (not (is_pos c.client_fd))

-- From one worker to another, the charges and those still due grow by the accepted connections and
-- by `extra`, and `live` by the open ones, as the counters' 64 bits show it.
pub record Booked (extra : ℕ) (u v : Worker) : Type 0 where
  pub charged :
      (buckets v.cnt + total uncharged v.conns + u.cnt.accepted) % u64_mod
      ≡ (buckets u.cnt + total uncharged u.conns + v.cnt.accepted + extra) % u64_mod
  pub living :
      (v.cnt.live + total open_conn u.conns) % u64_mod
      ≡ (u.cnt.live + total open_conn v.conns) % u64_mod
  pub numbered : total unnumbered v.conns ≤ total unnumbered u.conns

pub Booked_refl : (w : Worker) → Booked 0 w w
Booked_refl w = record { charged = omega arith; living = omega arith; numbered = omega arith }

pub Booked_trans : (m n : ℕ) (u v w : Worker) → Booked m u v → Booked n v w → Booked (m + n) u w
Booked_trans m n u v w h k = record {
  charged = omega (arith, h.charged, k.charged);
  living = omega (arith, h.living, k.living);
  numbered = omega (arith, h.numbered, k.numbered);
}

pub Booked_cast : {m n : ℕ} {u v : Worker} → m ≡ n → Booked m u v → Booked n u v
Booked_cast {u = u} {v = v} e h = subst (λ k. Booked k u v) e h

-- Nothing but the counters and the map is read.
pub Booked_of :
    (n : ℕ) (u v v' : Worker) → v.conns ≡ v'.conns → v.cnt ≡ v'.cnt → Booked n u v → Booked n u v'
Booked_of n u v v' e f h = record {
  charged = rw (sym e, sym f) h.charged;
  living = rw (sym e, sym f) h.living;
  numbered = rw (sym e) h.numbered;
}
