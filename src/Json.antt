-- ===== src/Json.antt =====
-- debugger/src/json.h: the JSON values, their printer and their parser.
pub mod Floats
pub mod Value
pub mod Map
pub mod Print
pub mod Result
pub mod Scan
pub mod Parse
pub mod RoundTrip
pub mod Termination
