-- ===== src/Json/RoundTrip.antt =====
-- What `serialize` writes, `parse` reads back.
pub mod Strings
pub mod Numbers
pub mod Front
pub mod Printable
pub mod Values
