-- ===== src/Repo/Transfer/Objects.antt =====
-- src/repo/transfer/serve.rs: the Git phase on the server, and what the fetcher makes of its frames.
pub mod Defs
pub mod Written
pub mod Sent
pub mod Delivered
