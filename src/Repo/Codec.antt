-- ===== src/Repo/Codec.antt =====
-- src/repo/codec.rs: the validation of replicated operations and views. A message is the record of the fields
-- that the source reads; decoding bytes into one is a parameter. A `HashSet` of ids is a list without
-- duplicates, whose order the source leaves open, and an `i32` is a number, of which `known` says whether
-- jj's enumeration has it.
pub mod Messages
pub mod Ids
pub mod Views
pub mod Collect
pub mod Soundness
pub mod Parsing
