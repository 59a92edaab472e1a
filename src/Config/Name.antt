-- ===== src/Config/Name.antt =====
-- src/config/name.rs: validation and masking of text that reaches the terminal.
-- A `String` is its sequence of code points; `len` is the length of its UTF-8 form.
mod Defs
mod Laws
pub use Defs.{Text, len, max_name_len}
unfoldable pub use Defs.{take, is_confusable, validate_name, sanitize, sanitize_bounded}
pub use Laws.*
