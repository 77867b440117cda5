-- ===== src/Worker/Tokens.antt =====
-- What is outstanding for one connection of flashrelay/worker.go: its ring requests in flight, by
-- operation, and the hook calls that are queued, running or decided.
use flash_relay.Base.{
  ℕ, zero, suc, ◌<◌, ◌≡◌, refl, ap, List, [], ◌∷◌, Option, some, none, ◌∙◌, arith, ◌==◌,
  if◌then◌else◌, get_elem?, ==_refl,
}
use flash_relay.Worker.State.{Request}
use flash_relay.Worker.Ops
use flash_relay.Worker.Ops.{
  Op, op_code, op_case, ud, unpack, unpack-op, unpack-id, op_case-op_code, max_id,
}
use flash_relay.Base.Sums.{remove_at}
use flash_relay.Worker.Kernel.{user_data}

-- How many requests of each kind.
pub record Tokens : Type 0 where
  pub recv_req : ℕ
  pub reply_client : ℕ
  pub reply_more : ℕ
  pub send_up : ℕ
  pub reject_send : ℕ
  pub c2u_recv : ℕ
  pub c2u_send : ℕ
  pub u2c_recv : ℕ
  pub u2c_send : ℕ
  pub close : ℕ

abbrev pub no_tokens : Tokens
no_tokens = record {
  recv_req = 0;
  reply_client = 0;
  reply_more = 0;
  send_up = 0;
  reject_send = 0;
  c2u_recv = 0;
  c2u_send = 0;
  u2c_recv = 0;
  u2c_send = 0;
  close = 0;
}

-- One more request under an operation.
abbrev pub add_op : Op → Tokens → Tokens
add_op Ops.accept t = t
add_op Ops.eventfd t = t
add_op Ops.recv_req t = record t { recv_req = suc t.recv_req }
add_op Ops.reply_client t = record t { reply_client = suc t.reply_client }
add_op Ops.reply_more t = record t { reply_more = suc t.reply_more }
add_op Ops.send_up t = record t { send_up = suc t.send_up }
add_op Ops.reject_send t = record t { reject_send = suc t.reject_send }
add_op Ops.c2u_recv t = record t { c2u_recv = suc t.c2u_recv }
add_op Ops.c2u_send t = record t { c2u_send = suc t.c2u_send }
add_op Ops.u2c_recv t = record t { u2c_recv = suc t.u2c_recv }
add_op Ops.u2c_send t = record t { u2c_send = suc t.u2c_send }
add_op Ops.close t = record t { close = suc t.close }
add_op Ops.timeout t = t

-- The operation under which the completion of a request reaches the connection of an id.
abbrev pub selects : ℕ → Request → Option Op
selects id r = if (unpack (user_data r)).0 == id then op_case (unpack (user_data r)).1 else none

abbrev pub add_selected : Option Op → Tokens → Tokens
add_selected none t = t
add_selected (some op) t = add_op op t

unfoldable pub tokens : ℕ → List Request → Tokens
tokens id [] = no_tokens
tokens id (r ∷ rs) = add_selected (selects id r) (tokens id rs)

-- Of two additions the order makes no difference.
add_op_swap : (o p : Op) (t : Tokens) → add_op o (add_op p t) ≡ add_op p (add_op o t)
add_op_swap Ops.accept p t = refl
add_op_swap o p t = ground arith

add_selected_swap :
    (a b : Option Op) (t : Tokens)
    → add_selected a (add_selected b t) ≡ add_selected b (add_selected a t)
add_selected_swap none b t = refl
add_selected_swap (some o) none t = refl
add_selected_swap (some o) (some p) t = add_op_swap o p t

-- What a completion takes away.
pub tokens-remove_at :
    (id i : ℕ) (r : Request) (rs : List Request)
    → get_elem? rs i ≡ some r
    → tokens id rs ≡ add_selected (selects id r) (tokens id (remove_at i rs))
unfolding tokens remove_at
tokens-remove_at id i r [] h = ground arith
tokens-remove_at id zero r (x ∷ rs) h =
    let e : x ≡ r = cc in ap (λ y. add_selected (selects id y) (tokens id rs)) e
tokens-remove_at id (suc i) r (x ∷ rs) h =
    ap (add_selected (selects id x)) (tokens-remove_at id i r rs h)
    ∙ add_selected_swap (selects id x) (selects id r) (tokens id (remove_at i rs))

selects-post :
    (id own : ℕ) (op : Op) (r : Request)
    → own < max_id
    → user_data r ≡ ud own (op_code op)
    → selects id r ≡ (if own == id then some op else none)
selects-post id own op r small h =
    let same_id : (unpack (user_data r)).0 ≡ own =
      ap (λ u. (unpack u).0) h ∙ unpack-id own op small in
    let same_op : (unpack (user_data r)).1 ≡ op_code op =
      ap (λ u. (unpack u).1) h ∙ unpack-op own op in
    rw (same_id, same_op, op_case-op_code op)

-- What a request that is posted for a connection adds.
pub tokens-post :
    (id : ℕ) (own : ℕ) (op : Op) (r : Request) (rs : List Request)
    → own < max_id
    → user_data r ≡ ud own (op_code op)
    → tokens id (r ∷ rs) ≡ (if own == id then add_op op (tokens id rs) else tokens id rs)
unfolding tokens
tokens-post id own op r rs small h = rw (selects-post id own op r small h) (ground arith)

pub tokens-own :
    (id : ℕ) (op : Op) (r : Request) (rs : List Request)
    → id < max_id
    → user_data r ≡ ud id (op_code op)
    → tokens id (r ∷ rs) ≡ add_op op (tokens id rs)
tokens-own id op r rs small h = rw (tokens-post id id op r rs small h) (ground (arith, ==_refl id))
