-- ===== src/Tests/Rings.antt =====
-- Runs of the ring and of the gate's helpers at concrete inputs.
use flash_relay.Base.{
  ℕ, zero, suc, get_elem?, ◌^◌, ◌+◌, ◌≡◌, ◌≢◌, ◌<◌, ◌↔◌, refl, true, false, List, [], ◌∷◌, ◌++◌,
  some, arith, replicate,
}
use flash_relay.Base.Int.{pos}
use flash_relay.Uring.Prep.{Sqe, empty_sqe, prep_close}
use flash_relay.Uring.Queue.{
  Ring, get_sqe, Enter, eintr, errno, consumed, post_sqe, cq_ready, peek_cqe, cq_advance,
}
use flash_relay.Uring.Slots.{slot, IsRing, Handed, get_sqe-Handed, Untouched, get_sqe-Untouched}
use flash_relay.Uring.Harvest.{cq_advance-drops}
use flash_relay.Uring.Fifo.{Queues, no_more, interrupted, refused, took, enter_queue, post_queue}
use flash_relay.Uring.Refine.{Refines, post_sqe-Refines}
use flash_relay.Uring.Post.{Posted, post_sqe-Posted}
use flash_relay.Uring.Setup.{Params, Answers, Memory, new_ring, Released, new_ring-Released}
use flash_relay.Gate.Proto.{equal, request, reply, equal_iff, reply-request}
use flash_relay.Gate.Sink.{grid, grid_apart}

-- Two entries, both pending, with the indices about to wrap.
abbrev full_ring : Ring
full_ring = record {
  sqes = empty_sqe ∷ empty_sqe ∷ [];
  sq_array = 0 ∷ 1 ∷ [];
  cqes = [];
  sq_head = 4294967295;
  sq_tail = 1;
  cq_head = 0;
  cq_tail = 0;
  cq_overflow = 0;
  sq_mask = 1;
  cq_mask = 3;
  sq_entries = 2;
  cq_entries = 4;
  sq_tail_local = 1;
  cq_head_local = 0;
  to_submit = 2;
  no_drop = true;
}

full_ring-IsRing : IsRing 1 full_ring
full_ring-IsRing = record {
  power = refl;
  mask = refl;
  order = omega arith;
  sized = refl;
  indexed = refl;
  head_word = omega arith;
  tail_word = omega arith;
  fits = omega arith;
}

get_sqe-Handed_example : Handed 1 full_ring (get_sqe full_ring)
get_sqe-Handed_example = get_sqe-Handed 1 full_ring full_ring-IsRing

-- The same with one entry pending, which is at index 1.
abbrev half_ring : Ring
half_ring = record full_ring { sq_tail_local = 0; to_submit = 1 }

half_ring-IsRing : IsRing 1 half_ring
half_ring-IsRing = record {
  power = refl;
  mask = refl;
  order = omega arith;
  sized = refl;
  indexed = refl;
  head_word = omega arith;
  tail_word = omega arith;
  fits = omega arith;
}

abbrev handed_out : ℕ × Ring
handed_out = (0, record half_ring { sq_tail_local = 1; to_submit = 2 })

half_ring-handed : get_sqe half_ring ≡ some handed_out
unfolding get_sqe
half_ring-handed = refl

get_sqe-Untouched_example : Untouched 0 half_ring handed_out
get_sqe-Untouched_example =
    get_sqe-Untouched 1 0 half_ring handed_out half_ring-IsRing half_ring-handed (omega arith)

abbrev close_7 : Sqe → Sqe
close_7 s = prep_close s (pos 7) 12

post_sqe-Posted_example :
    Posted close_7 (post_sqe 1 close_7 (replicate 2 eintr ++ consumed 1 ∷ []) full_ring)
post_sqe-Posted_example =
    post_sqe-Posted 1 0 2 0 close_7 [] full_ring full_ring-IsRing (omega arith)

abbrev both_queued : List Sqe
both_queued = empty_sqe ∷ empty_sqe ∷ []

full_ring-Queues : Queues both_queued full_ring
full_ring-Queues = record { count = refl; through = through; each = each }
  where
    through :
        (i : ℕ) → i < 2 → get_elem? full_ring.sq_array (slot full_ring i) ≡ some (slot full_ring i)
    through zero h = refl
    through (suc zero) h = refl
    through (suc (suc i)) h = absurd (omega arith)

    each : (i : ℕ) → i < 2 → get_elem? full_ring.sqes (slot full_ring i) ≡ get_elem? both_queued i
    each zero h = refl
    each (suc zero) h = refl
    each (suc (suc i)) h = absurd (omega arith)

-- The kernel is interrupted, then busy, and then takes one entry.
abbrev slow_kernel : List Enter
slow_kernel = eintr ∷ errno 16 ∷ consumed 1 ∷ []

post_sqe-Refines_example :
    Refines 1
      (post_sqe 2 close_7 slow_kernel full_ring)
      (post_queue 2 (2 ^ 1) (close_7 empty_sqe) slow_kernel both_queued)
post_sqe-Refines_example =
    post_sqe-Refines 1 2 close_7 slow_kernel full_ring both_queued full_ring-IsRing full_ring-Queues
      (interrupted (refused (took (omega arith) no_more)))

post_queue-slow :
    post_queue 2 2 (close_7 empty_sqe) slow_kernel both_queued
    ≡ some ([], empty_sqe ∷ close_7 empty_sqe ∷ [])
unfolding post_queue enter_queue prep_close
post_queue-slow = refl

-- Three completions, the index of the oldest being the last before the wrap.
abbrev ready_ring : Ring
ready_ring = record full_ring {
  cqes =
      record { user_data = 1; res = pos 1 }
      ∷ record { user_data = 2; res = pos 2 }
      ∷ record { user_data = 3; res = pos 3 }
      ∷ record { user_data = 0; res = pos 0 }
      ∷ [];
  cq_head_local = 4294967295;
  cq_tail = 2;
}

cq_advance-drops_example :
    (cq_ready (cq_advance 1 ready_ring) + 1 ≡ cq_ready ready_ring)
    × ((i : ℕ) → peek_cqe i (cq_advance 1 ready_ring) ≡ peek_cqe (1 + i) ready_ring)
cq_advance-drops_example =
    cq_advance-drops 1 ready_ring (omega arith) (omega arith) (unfold cq_ready in omega arith)

abbrev half_mapped : Params
half_mapped = record {
  sq_entries = 2;
  cq_entries = 4;
  array_offset = 64;
  cqes_offset = 128;
  single_mmap = false;
  no_drop = true;
}

abbrev cq_refused : Answers
cq_refused = record {
  setup = some (5, half_mapped);
  map_sq = true;
  map_cq = false;
  map_sqes = true;
}

abbrev before : Memory
before = record { fds = 3; maps = 1; calls = [] }

new_ring-Released_example : Released before (new_ring cq_refused before)
new_ring-Released_example =
    new_ring-Released cq_refused 5 half_mapped before refl (λ e. absurd (omega (arith, e)))

abbrev sent : List ℕ
sent = 1 ∷ 2 ∷ []

abbrev seen : List ℕ
seen = 1 ∷ 3 ∷ []

equal_iff_example : (equal seen sent ≡ true) ↔ (seen ≡ sent)
equal_iff_example = equal_iff seen sent

reply-request_example : equal (request 4) (reply 4) ≡ false
reply-request_example = reply-request 3

grid_apart_example : ((grid 2 3 4).0 < 2) × ((grid 2 3 4).1 < 3) × (grid 2 3 4 ≢ grid 2 3 9)
grid_apart_example = grid_apart 2 3 4 9 (omega arith) (omega arith) (omega arith) (omega arith)
