-- ===== src/Split/Code.antt =====
-- `DSWP::loopSplit`: the function of one thread. `Relevant` is the choice of its blocks, `Target` the
-- climb to a block that the thread has, `Copy` the copying of the instructions.
pub mod Relevant
pub mod Target
pub mod Copy
pub mod Tests
