-- ===== src/Worker.antt =====
-- flashrelay/worker.go: the per-core ring engine. The children hold its data, its closures, its
-- completion handlers and its loop, and below them what is proved of each.
pub mod Ops
pub mod State
pub mod Conns
pub mod Actions
pub mod Handlers
pub mod Loop
pub mod Kernel
pub mod Frame
pub mod Backpressure
pub mod Tokens
pub mod Footprint
pub mod Buffers
pub mod Pin
pub mod Stats
pub mod Ledger
pub mod HookFds
pub mod Lifecycle
