-- ===== src/Uring.antt =====
-- internal/uring/uring.go: one io_uring instance. Uring/Prep is the prepared submissions, Uring/Queue
-- the two rings, Uring/Slots, Uring/Post and Uring/Harvest what is proved of them, and Uring/Fifo and
-- Uring/Refine the submission queue as a plain queue; Uring/Setup is `New` and `Close`.
pub mod Prep
pub mod Queue
pub mod Slots
pub mod Post
pub mod Fifo
pub mod Refine
pub mod Harvest
pub mod Setup
