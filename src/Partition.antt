-- ===== src/Partition.antt =====
-- DSWP_3.cpp: the components are given to threads. `Total` follows the code from its start to its end,
-- `Balance` and `Fair` are about the latencies that the threads get.
pub mod Latency
mod Defs
pub mod Queue
pub mod Schedule
pub mod Total
pub mod Balance
pub mod Fair
pub mod Tests
unfoldable pub use Defs.*
