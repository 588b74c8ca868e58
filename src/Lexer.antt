-- ===== src/Lexer.antt =====
-- The lexer of src/lexer/lexer.hpp.
pub mod Tokens
pub mod Tables
pub mod Cursor
pub mod Numbers
pub mod Strings
pub mod Layout
pub mod Scan
mod Tests
pub mod Shrink
pub mod Depth
pub mod Readers
pub mod Balance
pub mod Unindent
pub mod Signs
pub mod Turns
pub mod Switch
pub mod Total
pub mod Text
pub mod Quoted
