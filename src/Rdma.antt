-- ===== src/Rdma.antt =====
-- rdma.h and rdma.c: the request rings of the RDMA programs. The verbs library is a parameter.
pub mod Request
pub mod Post
pub mod Buffers
pub mod Device
pub mod Setup
pub mod Polling
pub mod Lively
