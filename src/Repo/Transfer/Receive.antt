-- ===== src/Repo/Transfer/Receive.antt =====
-- `receive_ops` of src/repo/transfer/fetch.rs: the validation of the frames of the operation phase.
pub mod Frames
pub mod Loop
pub mod Accepted
pub mod Preserve
pub mod Safe
