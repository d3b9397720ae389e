-- ===== src/Parse.antt =====
-- src/mnet_parse.c: HTTP request parsing. What the parts share is in `Text`.
pub mod Text
pub mod Line
pub mod Length
pub mod Body
pub mod Fields
pub mod Request
mod Tests
