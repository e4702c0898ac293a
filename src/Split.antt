-- ===== src/Split.antt =====
-- DSWP_4.cpp. `Liveness` is `getLiveinfo`, `Dominators` is `getDominators`, `Pre` is `preLoopSplit`,
-- `Threads` is `loopSplit`, whose inner loops are in `Code`; `Uses` is `replaceUses` of Utils.h, by
-- which the new instructions get their operands.
pub mod Liveness
pub mod Uses
pub mod Dominators
pub mod Pre
pub mod Code
pub mod Threads
pub mod Tests
