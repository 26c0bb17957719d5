-- ===== src/Rdma/Setup.antt =====
-- The set-up of rdma.c, `rdma_init`, `rdma_init_server` and `rdma_init_client`, and its clean-up,
-- `rdma_cleanup` and `internal_rdma_cleanup`. The functions are in continuation-passing style, since
-- every one of them may end the process: what follows a call is its last argument.
pub mod Attributes
pub mod State
pub mod Init
pub mod Cleanup
pub mod Programs
pub mod Held
pub mod Tries
pub mod Released
pub mod ServerPaths
pub mod ClientPaths
pub mod QueuePair
