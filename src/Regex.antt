-- ===== src/Regex.antt =====
-- The regex engine of src/modules/regex.hpp.
pub mod Program
pub mod Matcher
pub mod Paths
pub mod Search
pub mod Ends
pub mod Repeat
pub mod Classes
pub mod Compiler
pub mod Fragment
pub mod Patches
pub mod Opened
pub mod Repeated
pub mod Shorter
pub mod Parsed
pub mod Atoms
pub mod Pieces
pub mod Alternation
pub mod Finished
pub mod Compiles
pub mod Whole
pub mod Within
pub mod Decides
pub mod Functions
pub mod Cache
pub mod Turns
pub mod Finds
pub mod Replaces
pub mod Restores
pub mod Splits
pub mod Tests
