-- ===== src/Gate.antt =====
-- research/gate/internal: the packages that the measuring programs share.
pub mod Proto
pub mod Sink
pub mod Init
pub mod Storm
