-- ===== src/Text.antt =====
-- The strings of src/lxc/string_utils.c.
pub mod Compare
pub mod Number
pub mod Decimal
pub mod Split
pub mod Path
pub mod Trim
pub mod Tests
