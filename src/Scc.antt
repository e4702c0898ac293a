-- ===== src/Scc.antt =====
-- DSWP_2.cpp: the strongly connected components of the dependence graph, by two depth-first passes.
mod Defs
pub mod Graph
pub mod Reach
pub mod Finish
pub mod Strong
pub mod Forward
pub mod Dag
pub mod Backward
pub mod Settled
pub mod Order
pub mod Cycles
pub mod Members
mod Tests
pub use Defs.{Scc, no_scc, forward, backward}
unfoldable pub use Defs.{
  link, push_at, dfs_forward, dfs_reverse, forward_all, backward_all, find_scc,
}
