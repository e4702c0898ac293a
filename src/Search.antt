-- ===== src/Search.antt =====
-- The depth-first walk that `dfsVisit` (DSWP_1.cpp), `dfs_forward` and `dfs_reverse` (DSWP_2.cpp)
-- share: mark the node, go through its neighbours, call itself on the new ones, then finish.
-- The three functions differ in what they do on entry, at an old neighbour and on leaving.
mod Defs
pub mod Total
pub mod Marks
pub use Defs.{Walk, unseen, IsWalk, Run, done, old, new}
unfoldable pub use Defs.{neighbours, depth_first}
