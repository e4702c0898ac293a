-- ===== src/Build.antt =====
-- `DSWP::buildPDG`: the dependence graph of a loop. `Data` is its first half, the register and
-- memory dependences, `Blocks` the order of the blocks and the dummy blocks, `Control` the last loop of
-- it, the control dependences, and `Whole` all of it. `Extends` and `Only` are about graphs that grow.
pub mod Extends
pub mod Only
pub mod Data
pub mod Blocks
pub mod Control
pub mod Whole
pub mod Tests
