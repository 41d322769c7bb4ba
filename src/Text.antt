-- ===== src/Text.antt =====
-- fabko/common/string_utils.hh. A character is its number; a string is the list of its characters.
pub mod Join
pub mod Codes
pub mod Split
pub mod SplitAny
pub mod Stream
pub mod Trim
