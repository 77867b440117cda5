-- ===== src/Worker/Lifecycle/Arrivals.antt =====
-- The invariant as a completion arrives in flashrelay/worker.go: its request is in flight no more,
-- and the kernel has written what it received.
use flash_relay.Base.{
  ℕ, ◌≤◌, ◌≡◌, ◌∙◌, refl, ap, sym, false, List, [], Option, none, some, inl, inr, arith, if-rule,
  Option-cases, ◌==◌, get_elem?, ==_refl,
}
use mathlib.Core.Path.{subst}
use flash_relay.Worker.State.{Conn, Request, Worker}
use flash_relay.Worker.Ops
use flash_relay.Worker.Ops.{Op, op_code, op_case, ud, unpack, max_id}
use flash_relay.Worker.Conns.{find, find-id, put, find-put_self, find-put_other, count_id-put}
use flash_relay.Base.Sums.{remove_at}
use flash_relay.Worker.Kernel.{user_data, overwrite, receive_into, deliver}
use flash_relay.Worker.Tokens.{Tokens, tokens, tokens-remove_at, selects, add_selected}
use flash_relay.Worker.Lifecycle.{Phase, deciding}
use flash_relay.Worker.Lifecycle.Sound.{load, Rest, Sound, Rest-step, found_known}

-- The connection of a completion still counts it.
unfoldable pub Pending : ℕ → Option Op → Worker → Type 0
Pending cid o w =
    Phase (find cid w.conns) (add_selected o (tokens cid w.posted)) (deciding cid [] w)

-- The buffers are no matter of the phase.
buffers :
    (c : Conn) (t : Tokens) (d : ℕ) (req c2u u2c : List ℕ)
    → Phase (some c) t d
    → Phase (some (record c { req_buf = req; c2u_buf = c2u; u2c_buf = u2c })) t d
buffers c t d req c2u u2c (inl (going, o)) = inl (
  going,
  record {
    no_close = o.no_close;
    one_token = o.one_token;
    client_lane = o.client_lane;
    upstream_lane = o.upstream_lane;
    half_open = o.half_open;
    charged = o.charged;
    undecided = o.undecided;
  },
)
buffers c t d req c2u u2c (inr (shut, o)) =
    inr (shut, record { closes = o.closes; some_left = o.some_left; accounted = o.accounted })

received :
    (c : Conn) (t : Tokens) (d op : ℕ) (bytes : List ℕ)
    → Phase (some c) t d
    → Phase (some (receive_into op bytes c)) t d
received c t d op bytes h =
    let P = λ (x : Conn). Phase (some x) t d in
    if-rule P (op == op_code Ops.recv_req)
      (λ _. buffers c t d (overwrite c.req_n bytes c.req_buf) c.c2u_buf c.u2c_buf h)
      (λ _.
        if-rule P (op == op_code Ops.c2u_recv)
          (λ _. buffers c t d c.req_buf (overwrite 0 bytes c.c2u_buf) c.u2c_buf h)
          (λ _.
            if-rule P (op == op_code Ops.u2c_recv)
              (λ _. buffers c t d c.req_buf c.c2u_buf (overwrite 0 bytes c.u2c_buf) h) (λ _. h)))

receive_into-id : (c : Conn) (op : ℕ) (bytes : List ℕ) → (receive_into op bytes c).id ≡ c.id
receive_into-id c op bytes = ground arith

load-add_selected : (o : Option Op) (t : Tokens) → load t ≤ load (add_selected o t)
load-add_selected none t = omega arith
load-add_selected (some op) t = ground arith

-- What is left once a request has completed.
module _ (i : ℕ) (r : Request) (w : Worker) (e : get_elem? w.posted i ≡ some r)
    (h : Sound [] w) where
  abbrev cid : ℕ
  cid = (unpack (user_data r)).0

  abbrev chosen : Option Op
  chosen = op_case (unpack (user_data r)).1

  abbrev left : Worker
  left = record w { posted = remove_at i w.posted }

  less : (id : ℕ) → load (tokens id left.posted) ≤ load (tokens id w.posted)
  less id =
      let t = tokens id left.posted in
      subst (λ a. load t ≤ load a) (sym (tokens-remove_at id i r w.posted e))
        (load-add_selected (selects id r) t)

  unselected : (id : ℕ) → (cid == id) ≡ false → tokens id w.posted ≡ tokens id left.posted
  unselected id ne = tokens-remove_at id i r w.posted e ∙ rw ne refl

  pub left-Rest : Rest cid [] left
  left-Rest = record {
    unique = h.unique;
    others = λ id ne. record {
      phase =
          subst (λ t. Phase (find id w.conns) t (deciding id [] w)) (unselected id ne)
            (h.phase id).phase;
    };
    fresh = λ id beyond.
        let old = h.fresh id beyond in
        record {
          absent = old.absent;
          quiet = omega (arith, less id, old.quiet);
          undecided = old.undecided;
        };
    no_zero = h.no_zero;
  }

  pub left-Pending : Pending cid chosen left
  unfolding Pending
  left-Pending =
      subst (λ t. Phase (find cid w.conns) t (deciding cid [] w))
        (tokens-remove_at cid i r w.posted e ∙ rw (==_refl cid) refl) (h.phase cid).phase

-- The kernel's bytes are written before the worker sees the completion.
pub record Received (cid : ℕ) (o : Option Op) (u v : Worker) : Type 0 where
  pub rest : Rest cid [] v
  pub pending : Pending cid o v
  pub same_next : v.next_id ≡ u.next_id

pub deliver-Received :
    (r : Request) (bytes : List ℕ) (o : Option Op) (w : Worker)
    → Rest (unpack (user_data r)).0 [] w
    → Pending (unpack (user_data r)).0 o w
    → Received (unpack (user_data r)).0 o w (deliver r bytes w)
unfolding deliver Pending
deliver-Received r bytes o w h p = elim (Option-cases (find (unpack (user_data r)).0 w.conns)) [
  | inl e ↦ rw (e, deliver) (record { rest = h; pending = unfold Pending in p; same_next = refl })
  | inr (c, e) ↦
      let cid = (unpack (user_data r)).0 in
      let c' = receive_into (unpack (user_data r)).1 bytes c in
      let same : c'.id ≡ cid =
        receive_into-id c (unpack (user_data r)).1 bytes ∙ find-id cid c w.conns e in
      let there : find cid (put c' w.conns) ≡ some c' =
        subst (λ i. find i (put c' w.conns) ≡ some c') same
          (find-put_self c' c w.conns (ap (λ i. find i w.conns) same ∙ e)) in
      let t = add_selected o (tokens cid w.posted) in
      let d = deciding cid [] w in
      rw (e, deliver)
        (record {
          rest =
              Rest-step cid [] w (record w { conns = put c' w.conns }) (found_known cid [] w c h e)
                (λ id ne. record {
                  found_eq = find-put_other id c' w.conns (rw same ne);
                  count_eq = count_id-put id c' w.conns;
                  tokens_eq = refl;
                  waits_eq = refl;
                })
                (record {
                  next_eq = refl;
                  counts_le = λ id. omega (arith, count_id-put id c' w.conns);
                })
                h;
          pending =
              unfold Pending in
              subst (λ f. Phase f t d) (sym there)
                (received c t d (unpack (user_data r)).1 bytes (subst (λ f. Phase f t d) e p));
          same_next = refl;
        })
]
