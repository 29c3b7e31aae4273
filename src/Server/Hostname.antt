-- ===== src/Server/Hostname.antt =====
-- nport-server/src/server/hostname.rs: the check of a host name, over its bytes.
pub mod Grammar
use nport.Prelude.{ℕ, Bool, not, ◌||◌, ltb, ◌==◌, any, length}
use nport.Text.{Text, is_empty, is_ascii_alphanumeric, starts_with, ends_with, split}

abbrev pub is_valid_char : ℕ → Bool
is_valid_char byte = is_ascii_alphanumeric byte || byte == b'-' || byte == b'.'

-- The closure that `is_valid` applies to each label.
abbrev pub is_bad_label : Text → Bool
is_bad_label label =
    is_empty label || ltb 63 (length label) || starts_with b'-' label || ends_with b'-' label

unfoldable pub is_valid : Text → Bool
is_valid hostname = not (
    any (λ byte. not (is_valid_char byte)) hostname
    || any is_bad_label (split b'.' hostname)
    || is_empty hostname
    || ltb 253 (length hostname))
