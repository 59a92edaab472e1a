-- ===== src/Repo/Transfer/Serve.antt =====
-- src/repo/transfer/serve.rs: the server side of a fetch. Writing to the stream gives the bytes that are sent.
pub mod Phase
pub mod Ops
pub mod Order
pub mod Honest
pub mod Deliver
pub mod Accepts
