-- ===== src/Text.antt =====
-- Byte strings: what the program uses of std::string and of the C and C++ text functions.
-- A std::string is the list of its bytes.
pub mod Bytes
pub mod Search
pub mod Decimal
