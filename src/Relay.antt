-- ===== src/Relay.antt =====
-- research/gate/cmd/relay-uring/main.go: the research relay, whose workers recycle connections,
-- accept on many listeners, and relay one reply, both directions, or both directions by splices.
pub mod Ops
pub mod State
pub mod Actions
pub mod Cases
pub mod Duplex
pub mod Loop
pub mod Kernel
pub mod Options
pub mod Acts
pub mod Phase
pub mod Sizes
pub mod Sound
