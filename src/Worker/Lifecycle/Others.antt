-- ===== src/Worker/Lifecycle/Others.antt =====
-- A case of flashrelay/worker.go that is about one connection changes nothing that is outstanding
-- for another.
use flash_relay.Base.{ℕ, ◌+◌, ◌≤◌, ◌<◌, ◌≡◌, ◌∙◌, refl, false, List, [], ◌∷◌, arith, ◌==◌}
use flash_relay.Worker.State.{Conn, Request, HookResult, Worker}
use flash_relay.Worker.Ops
use flash_relay.Worker.Ops.{Op, op_code, ud, max_id}
use flash_relay.Worker.Conns.{
  find, delete, count_id, count_id-put, count_id-delete_le, find-put_other, find-delete_other,
}
use flash_relay.Worker.Kernel.{user_data}
use flash_relay.Worker.Actions.{post, syscall, write}
use flash_relay.Worker.Tokens.{tokens, tokens-post}
use flash_relay.Worker.Footprint.{Contains}
use flash_relay.Worker.Lifecycle.{InPhase, count_jobs, count_jobs-append, count_results}

pub record Other (id : ℕ) (u v : Worker) : Type 0 where
  pub found_eq : find id v.conns ≡ find id u.conns
  pub count_eq : count_id id v.conns ≡ count_id id u.conns
  pub tokens_eq : tokens id v.posted ≡ tokens id u.posted
  pub waits_eq :
      count_jobs id v.jobs + count_results id v.br.ready
      ≡ count_jobs id u.jobs + count_results id u.br.ready

pub Other-refl : (id : ℕ) (w : Worker) → Other id w w
Other-refl id w = record { found_eq = refl; count_eq = refl; tokens_eq = refl; waits_eq = refl }

pub Other-trans : (id : ℕ) (u v w : Worker) → Other id u v → Other id v w → Other id u w
Other-trans id u v w p q = record {
  found_eq = q.found_eq ∙ p.found_eq;
  count_eq = q.count_eq ∙ p.count_eq;
  tokens_eq = q.tokens_eq ∙ p.tokens_eq;
  waits_eq = q.waits_eq ∙ p.waits_eq;
}

-- What holds of a connection goes on to hold.
pub Other-InPhase :
    (id : ℕ) (taken : List HookResult) (u v : Worker)
    → Other id u v
    → InPhase id taken u
    → InPhase id taken v
Other-InPhase id taken u v k h = record { phase = rw (k.found_eq, k.tokens_eq, k.waits_eq) h.phase }

count_id-delete_other :
    (id cid : ℕ) (cs : List Conn)
    → (cid == id) ≡ false
    → count_id id (delete cid cs) ≡ count_id id cs
unfolding count_id delete
count_id-delete_other id cid [] h = refl
count_id-delete_other id cid (c ∷ cs) h = ground (arith, count_id-delete_other id cid cs)

module _ (cid id : ℕ) (small : cid < max_id) (ne : (cid == id) ≡ false) where
  -- A request for the one is no request for the other.
  post-Other :
      (own : ℕ) (op : Op) (r : Request) (w : Worker)
      → own ≡ cid
      → user_data r ≡ ud own (op_code op)
      → Other id w (post r w)
  unfolding post
  post-Other own op r w e tag = record {
    found_eq = refl;
    count_eq = refl;
    tokens_eq = ground (arith, tokens-post id own op r w.posted);
    waits_eq = refl;
  }

module _ (cid id : ℕ) (small : cid < max_id) (ne : (cid == id) ≡ false) where
  pub Other-Contains : Contains cid (Other id)
  unfolding write syscall
  Other-Contains = record {
    same = Other-refl id;
    then = Other-trans id;
    writes = λ c w e. record {
      found_eq = find-put_other id c w.conns (rw e ne);
      count_eq = count_id-put id c w.conns;
      tokens_eq = refl;
      waits_eq = refl;
    };
    deletes = λ own w e. record {
      found_eq = find-delete_other own id w.conns (rw e ne);
      count_eq = count_id-delete_other id own w.conns (rw e ne);
      tokens_eq = refl;
      waits_eq = refl;
    };
    sends = λ own op fd bytes w e t. post-Other cid id small ne own op _ w e refl;
    receives = λ own op fd n w e t. post-Other cid id small ne own op _ w e refl;
    closes = λ own fd w e. post-Other cid id small ne own Ops.close _ w e refl;
    calls =
        λ call w. record { found_eq = refl; count_eq = refl; tokens_eq = refl; waits_eq = refl };
    counts =
        λ cnt w h. record { found_eq = refl; count_eq = refl; tokens_eq = refl; waits_eq = refl };
    queues = λ j w e. record {
      found_eq = refl;
      count_eq = refl;
      tokens_eq = refl;
      waits_eq = ground (arith, count_jobs-append id w.jobs j);
    };
  }

-- No case that is about one connection adds an entry to the map or takes an id.
pub record Narrows (u v : Worker) : Type 0 where
  pub next_eq : v.next_id ≡ u.next_id
  pub counts_le : (id : ℕ) → count_id id v.conns ≤ count_id id u.conns

pub Narrows-refl : (w : Worker) → Narrows w w
Narrows-refl w = record { next_eq = refl; counts_le = λ id. omega arith }

pub Narrows-trans : (u v w : Worker) → Narrows u v → Narrows v w → Narrows u w
Narrows-trans u v w p q = record {
  next_eq = q.next_eq ∙ p.next_eq;
  counts_le = λ id. omega (arith, p.counts_le id, q.counts_le id);
}

pub Narrows-Contains : (cid : ℕ) → Contains cid Narrows
unfolding write syscall post
Narrows-Contains cid = record {
  same = Narrows-refl;
  then = Narrows-trans;
  writes = λ c w e. record {
    next_eq = refl;
    counts_le = λ id. omega (arith, count_id-put id c w.conns);
  };
  deletes =
      λ own w e. record { next_eq = refl; counts_le = λ id. count_id-delete_le id own w.conns };
  sends = λ own op fd bytes w e t. record { next_eq = refl; counts_le = λ id. omega arith };
  receives = λ own op fd n w e t. record { next_eq = refl; counts_le = λ id. omega arith };
  closes = λ own fd w e. record { next_eq = refl; counts_le = λ id. omega arith };
  calls = λ call w. record { next_eq = refl; counts_le = λ id. omega arith };
  counts = λ cnt w h. record { next_eq = refl; counts_le = λ id. omega arith };
  queues = λ j w e. record { next_eq = refl; counts_le = λ id. omega arith };
}
