-- ===== src/Build/Whole.antt =====
-- `DSWP::buildPDG` (DSWP_1.cpp) as a whole: the data dependences, the peeled loop and the control
-- dependences.
pub mod Tests
use dswp_plus.Base.{
  ℕ, ◌≡◌, ◌↔◌, refl, ◌<◌, ◌≤◌, Option, none, some, List, [], ◌∷◌, ◌>>=◌, count, length, arith, inl,
  inr, ◌⊎◌,
}
use dswp_plus.Pdg.{Edge, Pdg, no_edges}
use dswp_plus.Pdg.Tables.{IsConsistent, no_edges-IsConsistent}
use dswp_plus.Build.Extends.{EdgesIn, Extends}
use dswp_plus.Build.Only.{Has}
use dswp_plus.Build.Data.{Analysis, data_dependences}
use dswp_plus.Build.Data.Edges.{IsAnalysis, Supported}
use dswp_plus.Build.Data.Exact.{IsData, data_dependences-IsData}
use dswp_plus.Build.Blocks.Dummies.{LoopBlocks, peel_loop}
use dswp_plus.Build.Blocks.Dummies.Peeling.{IsLoopOf, IsPeeling, peel_loop-IsPeeling}
use dswp_plus.Build.Control.{Peeled, control_dependences}
use dswp_plus.Build.Control.PostDominators.{IsTree}
use dswp_plus.Build.Control.Exact.{IsControl, control_dependences-IsControl}

-- LLVM's tree for the dummy function is that of its postdominators, of a depth of at most `depth`.
abbrev pub HasTree : LoopBlocks → ℕ → Type 0
HasTree c depth =
    (p : Peeled) (dummies : List ℕ)
    → peel_loop c (length c.blocks) ≡ some (p, dummies)
    → IsTree p (p.exit_block ∷ dummies) depth

module _ (a : Analysis) (c : LoopBlocks) (insts : List ℕ) where
  -- The fuel is for the climb in the postdominator tree; the search of the blocks has the number of
  -- the blocks.
  unfoldable pub build_pdg : ℕ → Pdg → Option Pdg
  unfolding data_dependences peel_loop control_dependences
  build_pdg fuel g = data_dependences a insts g >>= λ h.
      peel_loop c (length c.blocks) >>= λ r. control_dependences r.0 fuel r.1 h

  no_edges-EdgesIn : EdgesIn insts no_edges
  no_edges-EdgesIn e h = absurd (omega (arith, h))

  -- Let LLVM's answers on the memory dependences stay within the loop and let the code have a case for
  -- each, let LLVM give the dummy blocks different addresses, and let its tree for them be that of their
  -- postdominators. Then `buildPDG` returns from the empty tables, with fuel for the depth of that tree.
  -- The tables are in step, the edges are within the loop, and they are exactly these: the uses of the
  -- loop's instructions in the loop, the memory dependences that LLVM reports, and the control
  -- dependences by the paths through the peeled loop, whose blocks are the two copies of each block.
  pub build_pdg-IsExact :
      (depth fuel : ℕ)
      → IsAnalysis a insts
      → ((x : ℕ) → 0 < count x insts → Supported a x (a.dependency x))
      → IsLoopOf c insts
      → HasTree c depth
      → depth < fuel
      → (g : Pdg) × (p : Peeled) × (dummies : List ℕ) × (build_pdg fuel no_edges ≡ some g)
        × IsPeeling c p dummies
        × IsConsistent g
        × EdgesIn insts g
        × ((e : Edge) → Has e g ↔ (IsData a insts e ⊎ IsControl p dummies e))
  unfolding build_pdg
  build_pdg-IsExact depth fuel law supported loop tree h =
      let (g, eq, q, data_is) =
        data_dependences-IsData a insts law no_edges supported no_edges-IsConsistent in
      let (p, dummies, eq', peeling, peeled) =
        peel_loop-IsPeeling c insts (length c.blocks) loop (omega arith) in
      let is_tree = tree p dummies eq' in
      let (g', eq'', r, control_is) =
        control_dependences-IsControl p insts dummies depth (peeled depth is_tree) is_tree fuel g
          q.ok h in
      (
        g',
        p,
        dummies,
        rw (eq, eq') eq'',
        peeling,
        r.ok,
        r.within (q.within no_edges-EdgesIn),
        λ e. (
          λ k. elim ((control_is e).0 k) [
            | inr control ↦ inr control
            | inl old ↦ elim ((data_is e).0 old) [
              | inl before ↦ absurd (omega (arith, before))
              | inr new ↦ inl new
            ]
          ],
          λ k.
              (control_is e).1
                (elim k [ inl new ↦ inl ((data_is e).1 (inr new)) | inr control ↦ inr control ]),
        ),
      )
