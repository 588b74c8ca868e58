-- ===== src/Collector.antt =====
-- The garbage collector of src/vm/gc.hpp and src/object/object.hpp: a full cycle, `gcCollect`.
pub mod Heap
pub mod Marks
pub mod Tricolor
pub mod Collect
pub mod Cycle
mod Tests
