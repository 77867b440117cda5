-- ===== src/Worker/Lifecycle.antt =====
-- The life of one connection of flashrelay/worker.go, as what is outstanding for it: the state
-- machine that the completion cases run, one operation at a time before the relay starts and one a
-- direction from then on.
pub mod Closing
pub mod Rules
pub mod Cases
pub mod RelayCases
pub mod Hooked
pub mod Others
pub mod Sound
pub mod Switch
pub mod Accepts
pub mod Rounds
pub mod Arrivals
pub mod Runs
pub mod Always
pub mod Own
use flash_relay.Base.{
  ℕ, ◌+◌, ◌≤◌, ◌<◌, ◌≡◌, ◌⊎◌, Bool, true, false, Option, none, some, List, [], ◌∷◌, ◌++◌, arith,
  if◌then◌else◌, ◌==◌,
}
use flash_relay.Base.Int.{pos}
use flash_relay.Worker.State.{Conn, Job, HookResult, Worker}
use flash_relay.Worker.Ops.{max_id}
use flash_relay.Worker.Conns.{find, count_id, top_id}
use flash_relay.Worker.Tokens.{Tokens, tokens, no_tokens}

abbrev pub bit : Bool → ℕ
bit b = if b then 1 else 0

unfoldable pub count_jobs : ℕ → List Job → ℕ
count_jobs id [] = 0
count_jobs id (j ∷ js) = bit (j.id == id) + count_jobs id js

unfoldable pub count_results : ℕ → List HookResult → ℕ
count_results id [] = 0
count_results id (r ∷ rs) = bit (r.id == id) + count_results id rs

-- A connection that is not closing. Until the relay starts it has exactly one thing outstanding;
-- from then on each direction has one, up to its end of file.
pub record IsOpen (c : Conn) (t : Tokens) (deciding : ℕ) : Type 0 where
  pub no_close : t.close ≡ 0
  pub one_token :
      t.recv_req
        + deciding
        + t.reply_more
        + t.reply_client
        + t.send_up
        + t.reject_send
        + bit c.relay_started
      ≡ 1
  pub client_lane : t.c2u_recv + t.c2u_send + bit c.client_read_done ≡ bit c.relay_started
  pub upstream_lane : t.u2c_recv + t.u2c_send + bit c.upstream_read_done ≡ bit c.relay_started
  pub half_open : bit c.client_read_done + bit c.upstream_read_done ≤ 1
  pub charged : t.reject_send ≡ bit c.counted
  pub undecided : (c.upstream_fd ≡ pos 0) ⊎ (t.recv_req + deciding + t.reply_more ≡ 0)

-- A connection that is closing: its closes are in flight, and a bucket is due to it.
pub record IsShut (c : Conn) (t : Tokens) : Type 0 where
  pub closes : t.close ≡ c.closes_left
  pub some_left : 0 < c.closes_left
  pub accounted : 0 < bit c.counted + bit c.relay_started

abbrev pub Phase : Option Conn → Tokens → ℕ → Type 0
Phase none t d = Unit {0}
Phase (some c) t d = ((c.closing ≡ false) × IsOpen c t d) ⊎ ((c.closing ≡ true) × IsShut c t)

-- The decisions outstanding, with those that the drain has taken and not reached yet.
abbrev pub deciding : ℕ → List HookResult → Worker → ℕ
deciding id taken w = count_jobs id w.jobs + count_results id w.br.ready + count_results id taken

abbrev pub PhaseAt : ℕ → ℕ → Worker → Type 0
PhaseAt id d w = Phase (find id w.conns) (tokens id w.posted) d

pub record InPhase (id : ℕ) (taken : List HookResult) (w : Worker) : Type 0 where
  pub phase : PhaseAt id (deciding id taken w) w

pub count_jobs-append :
    (id : ℕ) (js : List Job) (j : Job)
    → count_jobs id (js ++ j ∷ []) ≡ count_jobs id js + bit (j.id == id)
unfolding count_jobs
count_jobs-append id [] j = omega arith
count_jobs-append id (x ∷ js) j = omega (arith, count_jobs-append id js j)
