-- ===== src/Sync.antt =====
-- DSWP_5.cpp: what couples the threads. `Channels` is `insertSynchronization`, `Crossing` sets it
-- behind the steps before it, `Planned` has what the first three of them leave, and `Placed` goes
-- through all of them. `Casts` is the values' way through a channel in `insertProduce` and
-- `insertConsume`, `Uses` the uses that the latter replaces, `Clean` is what `cleanup` does to the blocks
-- of the threads, and `Delete` its deletion of the loop.
pub mod Channels
pub mod Crossing
pub mod Planned
pub mod Placed
pub mod Clean
pub mod Delete
pub mod Casts
pub mod Uses
mod Tests
