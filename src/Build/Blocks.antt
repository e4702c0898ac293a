-- ===== src/Build/Blocks.antt =====
-- `DSWP::dfsVisit` and the order of the blocks in `buildPDG` (DSWP_1.cpp). Peel has the branches of the
-- dummy blocks, and Dummies makes the peeled loop of them.
pub mod Ordered
pub mod Peel
pub mod Dummies
mod Tests
use dswp_plus.Base.{
  ℕ, Bool, true, false, Option, none, some, List, [], ◌∷◌, ◌++◌, if◌then◌else◌, update, ◌>>=◌,
}
use dswp_plus.Search.{Walk, depth_first}

-- `b_visited` and `bb_ordered`.
pub record Order : Type 0 where
  pub visited : ℕ → Bool
  pub ordered : List ℕ

abbrev pub no_order : Order
no_order = record { visited = λ _. false; ordered = [] }

-- What the code asks of LLVM: the successors of a block, and whether the loop contains it.
module _ (successors : ℕ → List ℕ) (contains : ℕ → Bool) where
  -- The successors for which `L->contains` holds.
  unfoldable pub inside : List ℕ → List ℕ
  inside [] = []
  inside (b ∷ bs) = if contains b then b ∷ inside bs else inside bs

  abbrev pub blocks_walk : Walk Order
  blocks_walk = record {
    next = λ b. inside (successors b);
    seen = λ s. s.visited;
    enter = λ b s. record s { visited = update s.visited b true };
    again = λ b n s. s;
    leave = λ b s. record s { ordered = s.ordered ++ (b ∷ []) };
  }

  -- The fuel bounds how deep the calls nest.
  unfoldable pub dfs_visit : ℕ → ℕ → Order → Option Order
  unfolding depth_first inside
  dfs_visit fuel b s = depth_first blocks_walk fuel b s

  -- The loop over the blocks that calls it.
  unfoldable pub order_blocks : ℕ → List ℕ → Order → Option Order
  unfolding dfs_visit
  order_blocks fuel [] s = some s
  order_blocks fuel (b ∷ bs) s =
      (if s.visited b then some s else dfs_visit fuel b s) >>= λ t. order_blocks fuel bs t
