-- ===== src/Edge.antt =====
-- internal/edge: the read-only policy of the commands that the edge runs.
pub mod Policy
pub mod Dispatch
pub mod Work
pub mod Transport
pub mod Aws
