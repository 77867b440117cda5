-- ===== src/Worker/Lifecycle/Accepts.antt =====
-- The invariant through `case opAccept` of flashrelay/worker.go: a new connection starts in phase.
use flash_relay.Base.{
  ℕ, suc, ◌-◌, ◌≤◌, ◌<◌, ◌≡◌, ◌∙◌, refl, false, List, ◌∷◌, inl, arith, if-rule, leb, ◌==◌, length,
  ==_refl,
}
use flash_relay.Base.Int.{ℤ, is_neg}
use flash_relay.Base.Words.{add64}
use flash_relay.Worker.State.{Limits, Conn, HookResult, Worker, Request, recv, close}
use flash_relay.Worker.Ops
use flash_relay.Worker.Ops.{Op, op_code, ud, max_id}
use flash_relay.Worker.Conns.{find, count_id}
use flash_relay.Worker.Actions.{post, count_live, count_accepted, count_errors, count_shed}
use flash_relay.Worker.Handlers.{on_accept, admit, new_conn}
use flash_relay.Worker.Tokens.{tokens, tokens-own, tokens-post}
use flash_relay.Worker.Lifecycle.{InPhase, IsOpen, deciding}
use flash_relay.Worker.Lifecycle.Others.{Other, Other-InPhase, Other-Contains, Narrows-Contains}
use flash_relay.Worker.Lifecycle.Sound.{
  Other-IsFresh, IsFresh, Rest, Sound, whole, Sound-Rest, Rest-step, bookkept, absent-InPhase,
}
use flash_relay.Worker.Lifecycle.Switch.{SoundAfter}
use flash_relay.Worker.Conns.{find-eq_none}

module _ (taken : List HookResult) (lim : Limits) (fd : ℤ) (w : Worker) (h : Sound taken w)
    (room : suc w.next_id < max_id) where
  abbrev fresh_id : ℕ
  fresh_id = add64 w.next_id 1

  next : fresh_id ≡ suc w.next_id
  next = omega arith

  fresh_id-IsFresh : IsFresh fresh_id taken w
  fresh_id-IsFresh = h.fresh fresh_id (omega (arith, next))

  conn : Conn
  conn = new_conn lim fresh_id fd w.tick

  first : Request
  first = recv fd (length conn.req_buf) (ud fresh_id (op_code Ops.recv_req))

  admitted : Worker
  admitted = record (count_live w) {
    next_id = fresh_id;
    conns = conn ∷ w.conns;
    posted = first ∷ w.posted;
  }

  conn-IsOpen : IsOpen conn (tokens fresh_id (first ∷ w.posted)) (deciding fresh_id taken w)
  unfolding conn first
  conn-IsOpen =
      let q = fresh_id-IsFresh.quiet in
      let z = fresh_id-IsFresh.undecided in
      rw (tokens-own fresh_id Ops.recv_req first w.posted (omega (arith, next)) refl) (ground arith)

  apart : (id : ℕ) → (fresh_id == id) ≡ false → Other id w admitted
  unfolding find count_id admitted conn first
  apart id ne = record {
    found_eq = rw ne refl;
    count_eq = rw ne (omega arith);
    tokens_eq =
        tokens-post id fresh_id Ops.recv_req first w.posted (omega (arith, next)) refl ∙ rw ne refl;
    waits_eq = refl;
  }

  own : InPhase fresh_id taken admitted
  unfolding find admitted conn first
  own = record { phase = rw (==_refl fresh_id) (inl (refl, unfold conn first in conn-IsOpen)) }

  counted : (id : ℕ) → count_id id admitted.conns ≤ 1
  unfolding count_id admitted conn
  counted id = ground (arith, h.unique id, fresh_id-IsFresh.absent)

  admitted-Sound : Sound taken admitted
  admitted-Sound = whole fresh_id taken admitted rest own
    where
      rest : Rest fresh_id taken admitted
      rest = record {
        unique = counted;
        others = λ id ne. Other-InPhase id taken w admitted (apart id ne) (h.phase id);
        fresh = λ id beyond.
            let less : fresh_id < id = unfold admitted in beyond in
            let old : w.next_id < id = omega (arith, next) in
            let ne : (fresh_id == id) ≡ false = ground (arith, less) in
            Other-IsFresh id taken w admitted (apart id ne) (h.fresh id old);
        no_zero = (apart 0 (ground (arith, next))).count_eq ∙ h.no_zero;
      }

-- The close of a client that is shed is for id 0, which no connection has.
shed-Sound :
    (taken : List HookResult) (fd : ℤ) (w : Worker)
    → Sound taken w
    → Sound taken (post (close fd (ud 0 (op_code Ops.close))) w)
unfolding post
shed-Sound taken fd w h =
    let v = post (close fd (ud 0 (op_code Ops.close))) w in
    whole 0 taken v
      (Rest-step 0 taken w v (omega arith)
        (λ id ne. (Other-Contains 0 id (omega arith) ne).closes 0 fd w refl)
        ((Narrows-Contains 0).closes 0 fd w refl) (Sound-Rest 0 taken w h))
      (absent-InPhase 0 taken v (find-eq_none 0 w.conns h.no_zero))

pub on_accept-Sound :
    (taken : List HookResult) (lim : Limits) (res : ℤ) (w : Worker)
    → Sound taken w
    → suc w.next_id < max_id
    → SoundAfter taken w (on_accept lim res w)
unfolding on_accept admit post
on_accept-Sound taken lim res w h room =
    let w1 : Worker = record w { accept_inflight = w.accept_inflight - 1 } in
    let w2 = count_accepted w1 in
    let h1 = bookkept taken w w.tick w1.accept_inflight w2.cnt w.calls h in
    if-rule (SoundAfter taken w) (is_neg res)
      (λ _. record {
        sound = bookkept taken w w.tick w1.accept_inflight (count_errors w1).cnt w.calls h;
        next_le = omega arith;
      })
      (λ _.
        if-rule (SoundAfter taken w) (leb lim.max_conns (length w1.conns))
          (λ _. record {
            sound =
                shed-Sound taken res (count_shed w2)
                  (bookkept taken w w.tick w1.accept_inflight (count_shed w2).cnt w.calls h);
            next_le = omega arith;
          })
          (λ _. record {
            sound = unfold admitted conn first in admitted-Sound taken lim res w2 h1 room;
            next_le = omega arith;
          }))
