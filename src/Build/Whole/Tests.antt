-- ===== src/Build/Whole/Tests.antt =====
-- A loop of one block, which leads back to itself and to the block 7 behind the loop.
use dswp_plus.Base.{
  ℕ, ◌≡◌, ◌↔◌, refl, sym, ap, ◌∙◌, subst, ◌⊎◌, ◌+◌, ◌*◌, Option, none, some, List, [], ◌∷◌, ◌==◌,
  arith, if◌then◌else◌,
}
use dswp_plus.Pdg.{Edge, Pdg, no_edges}
use dswp_plus.Pdg.Tables.{IsConsistent}
use dswp_plus.Build.Extends.{EdgesIn}
use dswp_plus.Build.Only.{Has}
use dswp_plus.Build.Data.Exact.{IsData}
use dswp_plus.Build.Blocks.Dummies.{LoopBlocks, peel_loop, real_of, create_dummies, no_tables}
use dswp_plus.Build.Blocks.Dummies.Peeling.{IsLoopOf, IsPeeling, peel_loop-IsPeeling}
use dswp_plus.Build.Control.{Peeled}
use dswp_plus.Build.Control.Covered.{IsPeeled}
use dswp_plus.Build.Control.PostDominators.{IsTree}
use dswp_plus.Build.Control.Exact.{IsControl}
use dswp_plus.Build.Control.Star.{IsStar-IsTree}
use dswp_plus.Build.Tests.{insts, sample, sample-IsAnalysis, sample-Supported}
use dswp_plus.Build.Whole.{build_pdg, HasTree, build_pdg-IsExact}

abbrev pub loop_blocks : LoopBlocks
loop_blocks = record {
  blocks = 0 ∷ [];
  contains = λ b. b == 0;
  successors = λ b. 0 ∷ 7 ∷ [];
  predecessors = λ b. 0 ∷ [];
  exits = 7 ∷ [];
  insts_of = λ b. if b == 0 then insts else [];
  terminator = λ b. 2;
  top = λ b. 2 * b + 1;
  bottom = λ b. 2 * b + 2;
  exit_address = 0;
  postdom = λ m e. (λ s. e, λ b s. if b == s then b else e);
}

pub loop_blocks-IsLoopOf : IsLoopOf loop_blocks insts
loop_blocks-IsLoopOf = record {
  fresh = record {
    top_inj = λ a b e. omega (arith, e);
    bottom_inj = λ a b e. omega (arith, e);
    apart = λ a b e. omega (arith, e);
    top_inner = λ a e. omega (arith, e);
    bottom_inner = λ a e. omega (arith, e);
  };
  contained = λ b h. ground (arith, h);
  inside = λ b x h k. ground (arith, h, k);
  ends = λ b h. omega arith;
}

-- The exit is 0, and the two dummy blocks are 1 and 2.
abbrev loop_peeled : Peeled
loop_peeled = record {
  successors = λ n. if 2 == n then 0 ∷ 0 ∷ 2 ∷ [] else if 1 == n then 0 ∷ 0 ∷ 2 ∷ [] else [];
  real = real_of loop_blocks (create_dummies loop_blocks (0 ∷ []) no_tables);
  insts_of = loop_blocks.insts_of;
  terminator = loop_blocks.terminator;
  exit_block = 0;
  idom = λ s. 0;
  nearest = λ b s. if b == s then b else 0;
}

loop_peeled_lem : peel_loop loop_blocks 1 ≡ some (loop_peeled, 1 ∷ 2 ∷ [])
unfolding peel_loop
loop_peeled_lem = refl

loop_peeled-IsTree : IsTree loop_peeled (0 ∷ 1 ∷ 2 ∷ []) 1
loop_peeled-IsTree = IsStar-IsTree loop_peeled (0 ∷ 1 ∷ 2 ∷ []) (record {
  below = λ s. refl;
  meet = λ b s. refl;
  root = omega arith;
  leaves = λ s c ne. ground (arith, c, ne);
})

abbrev from_some : Option (Peeled × List ℕ) → Peeled × List ℕ
from_some none = (loop_peeled, 1 ∷ 2 ∷ [])
from_some (some r) = r

pub loop_blocks-HasTree : HasTree loop_blocks 1
loop_blocks-HasTree p dummies e =
    let same : Path (Peeled × List ℕ) (loop_peeled, 1 ∷ 2 ∷ []) (p, dummies) =
      ap from_some (sym loop_peeled_lem ∙ e) in
    subst (λ (r : Peeled × List ℕ). IsTree r.0 (r.0.exit_block ∷ r.1) 1) same loop_peeled-IsTree

peel_loop-IsPeeling_example :
    (p : Peeled) × (dummies : List ℕ) × (peel_loop loop_blocks 1 ≡ some (p, dummies))
    × IsPeeling loop_blocks p dummies
    × ((depth : ℕ) → IsTree p (p.exit_block ∷ dummies) depth → IsPeeled p insts dummies depth)
peel_loop-IsPeeling_example =
    peel_loop-IsPeeling loop_blocks insts 1 loop_blocks-IsLoopOf (omega arith)

build_pdg-IsExact_example :
    (g : Pdg) × (p : Peeled) × (dummies : List ℕ) × (build_pdg sample loop_blocks insts 2 no_edges
      ≡ some g)
    × IsPeeling loop_blocks p dummies
    × IsConsistent g
    × EdgesIn insts g
    × ((e : Edge) → Has e g ↔ (IsData sample insts e ⊎ IsControl p dummies e))
build_pdg-IsExact_example =
    build_pdg-IsExact sample loop_blocks insts 1 2 sample-IsAnalysis sample-Supported
      loop_blocks-IsLoopOf loop_blocks-HasTree (omega arith)
