-- ===== src/Build/Control.antt =====
-- The control dependences, lines 453 to 493 of DSWP_1.cpp, for a peeled loop and LLVM's postdominator
-- tree for it.
pub mod Covered
pub mod PostDominators
pub mod Exact
pub mod Star
use dswp_plus.Base.{
  ℕ, zero, suc, ◌||◌, Option, none, some, List, [], ◌∷◌, ◌==◌, if◌then◌else◌, ◌>>=◌,
}
use dswp_plus.Pdg.{control, Pdg, add_edge}

-- `successors` are those of a dummy block, `real` is `dummytoreal`, `insts_of` and `terminator` are
-- those of a real block, `idom` is `getIDom` and `nearest` is `findNearestCommonDominator` of the
-- postdominator tree, in which a node stands for its block.
pub record Peeled : Type 0 where
  pub successors : ℕ → List ℕ
  pub real : ℕ → ℕ
  pub insts_of : ℕ → List ℕ
  pub terminator : ℕ → ℕ
  pub exit_block : ℕ
  pub idom : ℕ → ℕ
  pub nearest : ℕ → ℕ → ℕ

-- The loop over the instructions of `realdepblock`.
unfoldable pub add_controlled : ℕ → List ℕ → Pdg → Pdg
add_controlled t [] g = g
add_controlled t (inst ∷ is) g = add_controlled t is (add_edge t inst control g)

module _ (p : Peeled) where
  -- `while (succnode != dn && depblock != dummyexitblock)` for the terminator `t`; `none` means that
  -- the fuel ran out.
  unfoldable pub climb_tree : ℕ → ℕ → ℕ → ℕ → Pdg → Option Pdg
  unfolding add_controlled
  climb_tree zero t dn node g = none
  climb_tree (suc f) t dn node g =
      let rest = climb_tree f t dn (p.idom node) (add_controlled t (p.insts_of (p.real node)) g) in
      if node == dn || node == p.exit_block then some g else rest

  -- The loop over the successors of a dummy block.
  unfoldable pub add_successors : ℕ → ℕ → List ℕ → Pdg → Option Pdg
  unfolding climb_tree
  add_successors f b [] g = some g
  add_successors f b (s ∷ ss) g =
      climb_tree f (p.terminator (p.real b)) (p.nearest b s) s g >>= λ h. add_successors f b ss h

  -- The loop over `dummylist`.
  unfoldable pub control_dependences : ℕ → List ℕ → Pdg → Option Pdg
  unfolding add_successors
  control_dependences f [] g = some g
  control_dependences f (b ∷ bs) g =
      add_successors f b (p.successors b) g >>= λ h. control_dependences f bs h
