-- ===== src/Relay/Acts/Moves.antt =====
-- The smallest moves of which the cases of research/gate/cmd/relay-uring/main.go are made.
use flash_relay.Base.{
  ℕ, ◌≤◌, ◌≡◌, ◌∙◌, refl, List, [], ◌∷◌, ◌++◌, Option, none, some, arith, ==_refl, if-rule,
}
use flash_relay.Base.Sums.{tally, tally-append}
use flash_relay.Base.Table.{
  lookup, delete, entries, lookup-insert, lookup-delete, entries-insert_found, entries-delete_le,
  length-insert_found, length-delete_le,
}
use flash_relay.Relay.State.{Conn, RelayCfg, Request, Syscall, Relay}
use flash_relay.Relay.Actions.{post, write, put_conn}
use flash_relay.Relay.Kernel.{tag_of}
use flash_relay.Relay.Acts.{Acts, class, start_bit, relay_bit, close_bit, accept_bit, job_of}

module _ (cfg : RelayCfg) (cid : ℕ) (w : Relay) (o : Option Conn) (found : lookup cid w.conns ≡ o)
    (named : (x : Conn) → o ≡ some x → x.id ≡ cid) where
  -- Counters and system calls.
  pub Acts-note :
      (calls : List Syscall) (errs completed g_completed : ℕ)
      → Acts cfg cid w
          (record w {
            calls = calls;
            errs = errs;
            completed = completed;
            g_completed = g_completed;
          })
          o
          0
          0
          0
  Acts-note calls errs completed g_completed = record {
    own = found;
    named = named;
    own_pending = omega arith;
    own_relaying = omega arith;
    own_closing = omega arith;
    others = λ id ne. refl;
    pending_eq = λ id ne. refl;
    relaying_eq = λ id ne. refl;
    closing_eq = λ id ne. refl;
    entries_le = λ id. omega arith;
    fewer = omega arith;
    next_eq = refl;
    inflight_eq = refl;
    total_eq = refl;
    armed_eq = λ k. refl;
    tidy = λ t. record { blanks = t.blanks };
  }

  -- A request for the connection.
  pub Acts-post :
      (r : Request)
      → (tag_of r).id ≡ cid
      → accept_bit (tag_of r).op ≡ 0
      → Acts cfg cid w
          (post r w)
          o
          (start_bit (class (tag_of r).op))
          (relay_bit (class (tag_of r).op))
          (close_bit (class (tag_of r).op))
  unfolding post tally
  Acts-post r e no_accept =
      let same = ==_refl cid in
      record {
        own = found;
        named = named;
        own_pending = rw e (rw same (omega arith));
        own_relaying = rw e (rw same (omega arith));
        own_closing = rw e (rw same (omega arith));
        others = λ id ne. refl;
        pending_eq = λ id ne. rw e (rw ne (omega arith));
        relaying_eq = λ id ne. rw e (rw ne (omega arith));
        closing_eq = λ id ne. rw e (rw ne (omega arith));
        entries_le = λ id. omega arith;
        fewer = omega arith;
        next_eq = refl;
        inflight_eq = refl;
        total_eq = refl;
        armed_eq = λ k. ground (arith, no_accept);
        tidy = λ t. record { blanks = t.blanks };
      }

  pub Acts-job : Acts cfg cid w (record w { jobs = w.jobs ++ cid ∷ [] }) o 1 0 0
  Acts-job = record {
    own = found;
    named = named;
    own_pending =
        unfold tally in rw (tally-append (job_of cid) w.jobs (cid ∷ []), ==_refl cid) (omega arith);
    own_relaying = omega arith;
    own_closing = omega arith;
    others = λ id ne. refl;
    pending_eq =
        λ id ne. unfold tally in rw (tally-append (job_of id) w.jobs (cid ∷ []), ne) (omega arith);
    relaying_eq = λ id ne. refl;
    closing_eq = λ id ne. refl;
    entries_le = λ id. omega arith;
    fewer = omega arith;
    next_eq = refl;
    inflight_eq = refl;
    total_eq = refl;
    armed_eq = λ k. refl;
    tidy = λ t. record { blanks = t.blanks };
  }

  pub Acts-put_conn : (c : Conn) → Acts cfg cid w (put_conn cfg c w) o 0 0 0
  unfolding put_conn
  Acts-put_conn c =
      if-rule (λ v. Acts cfg cid w v o 0 0 0) cfg.duplex
        (λ _. Acts-note w.calls w.errs w.completed w.g_completed)
        (λ _. record {
          own = found;
          named = named;
          own_pending = omega arith;
          own_relaying = omega arith;
          own_closing = omega arith;
          others = λ id ne. refl;
          pending_eq = λ id ne. refl;
          relaying_eq = λ id ne. refl;
          closing_eq = λ id ne. refl;
          entries_le = λ id. omega arith;
          fewer = omega arith;
          next_eq = refl;
          inflight_eq = refl;
          total_eq = refl;
          armed_eq = λ k. refl;
          tidy = λ t. record { blanks = (refl, t.blanks) };
        })

-- The entry is written.
pub Acts-write :
    (cfg : RelayCfg) (c old : Conn) (w : Relay)
    → lookup c.id w.conns ≡ some old
    → Acts cfg c.id w (write c w) (some c) 0 0 0
unfolding write
Acts-write cfg c old w found = record {
  own = lookup-insert c.id c.id c w.conns ∙ rw (==_refl c.id) refl;
  named = λ x e. cc;
  own_pending = omega arith;
  own_relaying = omega arith;
  own_closing = omega arith;
  others = λ id ne. lookup-insert c.id id c w.conns ∙ rw ne refl;
  pending_eq = λ id ne. refl;
  relaying_eq = λ id ne. refl;
  closing_eq = λ id ne. refl;
  entries_le = λ id. omega (arith, entries-insert_found c.id id c old w.conns found);
  fewer = omega (arith, length-insert_found c.id c old w.conns found);
  next_eq = refl;
  inflight_eq = refl;
  total_eq = refl;
  armed_eq = λ k. refl;
  tidy = λ t. record { blanks = t.blanks };
}

-- The entry is deleted.
pub Acts-delete :
    (cfg : RelayCfg) (cid : ℕ) (w : Relay)
    → entries cid w.conns ≤ 1
    → Acts cfg cid w (record w { conns = delete cid w.conns }) none 0 0 0
Acts-delete cfg cid w once = record {
  own = lookup-delete cid cid w.conns once ∙ rw (==_refl cid) refl;
  named = λ x e. cc;
  own_pending = omega arith;
  own_relaying = omega arith;
  own_closing = omega arith;
  others = λ id ne. lookup-delete cid id w.conns once ∙ rw ne refl;
  pending_eq = λ id ne. refl;
  relaying_eq = λ id ne. refl;
  closing_eq = λ id ne. refl;
  entries_le = λ id. entries-delete_le cid id w.conns;
  fewer = length-delete_le cid w.conns;
  next_eq = refl;
  inflight_eq = refl;
  total_eq = refl;
  armed_eq = λ k. refl;
  tidy = λ t. record { blanks = t.blanks };
}
