-- ===== src/Worker/Lifecycle/Switch.antt =====
-- The invariant through the completion `switch` of flashrelay/worker.go.
use flash_relay.Base.{
  ℕ, suc, ◌≤◌, ◌<◌, ◌≡◌, ◌∙◌, refl, List, none, some, inl, inr, arith, if-rule, Option-cases, ◌==◌,
}
use flash_relay.Base.Int.{ℤ}
use flash_relay.Worker.State.{Limits, Conn, HookResult, Worker, Request}
use flash_relay.Worker.Ops
use flash_relay.Worker.Ops.{Op, op_code, ud, max_id}
use flash_relay.Worker.Conns.{find}
use flash_relay.Worker.Actions.{post}
use flash_relay.Worker.Kernel.{user_data}
use flash_relay.Worker.Handlers.{on_close}
use flash_relay.Worker.Loop.{on_op, sweep_one}
use flash_relay.Worker.Tokens.{Tokens, tokens, tokens-post, add_op}
use flash_relay.Worker.Footprint.{Contains, IsTransfer}
use flash_relay.Worker.Footprint.Cases
use flash_relay.Worker.Footprint.Decisions
use flash_relay.Worker.Footprint.Switch
use flash_relay.Worker.Lifecycle.{Phase, InPhase, deciding}
use flash_relay.Worker.Lifecycle.Others.{Other, Other-Contains, Narrows, Narrows-Contains}
use flash_relay.Worker.Lifecycle.Own.{on_op-InPhase, on_close-InPhase, sweep_one-InPhase}
use flash_relay.Worker.Lifecycle.Sound.{
  Rest, Sound, whole, Rest-step, carry, found_known, absent-InPhase,
}

-- What a step gives: the invariant, and at most one id given out.
pub record SoundAfter (taken : List HookResult) (u v : Worker) : Type 0 where
  pub sound : Sound taken v
  pub next_le : v.next_id ≤ suc u.next_id

-- What a case gives that takes no id.
pub record SoundHeld (taken : List HookResult) (u v : Worker) : Type 0 where
  pub sound : Sound taken v
  pub next_eq : v.next_id ≡ u.next_id

-- A case about a connection in the map.
module _ (cid : ℕ) (taken : List HookResult) (w : Worker) (h : Rest cid taken w)
    (room : w.next_id < max_id) where
  pub case_of :
      (c : Conn) (v : Worker)
      → find cid w.conns ≡ some c
      → ((R : Worker → Worker → Type 0) → Contains cid R → R w v)
      → (cid < max_id → InPhase cid taken v)
      → SoundHeld taken w v
  case_of c v e through own =
      let known : cid ≤ w.next_id = found_known cid taken w c h e in
      let small : cid < max_id = omega arith in
      let narrows = through Narrows (Narrows-Contains cid) in
      record {
        sound =
            whole cid taken v
              (Rest-step cid taken w v known
                (λ id ne. through (Other id) (Other-Contains cid id small ne)) narrows h)
              (own small);
        next_eq = narrows.next_eq;
      }

  unmoved : find cid w.conns ≡ none → SoundHeld taken w w
  unmoved e = record { sound = whole cid taken w h (absent-InPhase cid taken w e); next_eq = refl }

module _ (cid : ℕ) (taken : List HookResult) (w : Worker) (h : Rest cid taken w)
    (room : w.next_id < max_id) where
  pub transfer-Sound :
      (lim : Limits) (res : ℤ) (op : Op)
      → IsTransfer op
      → Phase (find cid w.conns) (add_op op (tokens cid w.posted)) (deciding cid taken w)
      → SoundHeld taken w (on_op lim cid res op w)
  transfer-Sound lim res op t before = elim (Option-cases (find cid w.conns)) [
    | inl e ↦ rw (Switch.transfer_gone lim cid res w op t e) (unmoved cid taken w h room e)
    | inr (c, e) ↦
        case_of cid taken w h room c _ e (λ R l. Switch.of_transfer lim cid res w R l op t)
          (λ small. on_op-InPhase lim cid res taken w op t small (h.unique cid) before)
  ]

  pub close-Sound :
      Phase (find cid w.conns) (add_op Ops.close (tokens cid w.posted)) (deciding cid taken w)
      → SoundHeld taken w (on_close cid w)
  unfolding on_close
  close-Sound before = elim (Option-cases (find cid w.conns)) [
    | inl e ↦ rw (e, on_close) (unmoved cid taken w h room e)
    | inr (c, e) ↦
        case_of cid taken w h room c _ e (λ R l. Cases.of_close cid R l w)
          (λ small. on_close-InPhase cid taken w (h.unique cid) before)
  ]

  pub sweep_one-Sound :
      (lim : Limits) → InPhase cid taken w → SoundHeld taken w (sweep_one lim cid w)
  unfolding sweep_one
  sweep_one-Sound lim own = elim (Option-cases (find cid w.conns)) [
    | inl e ↦ rw (e, sweep_one) (unmoved cid taken w h room e)
    | inr (c, e) ↦
        case_of cid taken w h room c _ e (λ R l. Decisions.of_sweep_one cid R l lim w)
          (λ small. sweep_one-InPhase lim cid taken w small (h.unique cid) own)
  ]

-- Requests whose completion is about no connection.
pub post-Sound :
    (op : Op) (r : Request) (taken : List HookResult) (w : Worker)
    → user_data r ≡ ud 0 (op_code op)
    → ((t : Tokens) → add_op op t ≡ t)
    → Sound taken w
    → Sound taken (post r w)
unfolding post
post-Sound op r taken w tag no_token h =
    carry taken w _
      (λ id. record {
        found_eq = refl;
        count_eq = refl;
        tokens_eq =
            tokens-post id 0 op r w.posted (omega arith) tag
            ∙ if-rule (λ t. t ≡ tokens id w.posted) (0 == id) (λ _. no_token (tokens id w.posted))
                (λ _. refl);
        waits_eq = refl;
      })
      (record { next_eq = refl; counts_le = λ id. omega arith }) h
