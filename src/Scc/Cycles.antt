-- ===== src/Scc/Cycles.antt =====
-- `findSCC` (DSWP_2.cpp) on cycles of dependences.
use dswp_plus.Base.{ℕ, ◌≡◌, ◌≤◌, some, List, length, arith, inl, inr}
use dswp_plus.Pdg.{Pdg}
use dswp_plus.Pdg.Tables.{IsConsistent}
use dswp_plus.Scc.Defs.{Scc, no_scc, find_scc}
use dswp_plus.Scc.Reach.{Reach, here, step}
use dswp_plus.Scc.Order.{IsWithin, IsOrdered, find_scc-IsOrdered}

scc_id_mono :
    {g : Pdg} {insts : List ℕ} {t : Scc} {x y : ℕ}
    → IsOrdered g insts t
    → Reach g x y
    → t.scc_id x ≤ t.scc_id y
scc_id_mono o here = omega arith
scc_id_mono {t = t} {x = x} o (step {y} {z} r d) = elim (o.edges y z d) [
  | inl e ↦ omega (arith, scc_id_mono o r)
  | inr e ↦ omega (arith, scc_id_mono o r, o.upward (t.scc_id y) (t.scc_id z) e)
]

-- `findSCC` returns, given enough fuel, and gives any two instructions that reach one another the
-- same component.
pub find_scc-cycle :
    (g : Pdg) (insts : List ℕ) (fuel : ℕ)
    → IsConsistent g
    → IsWithin g insts
    → length insts ≤ fuel
    → (t : Scc) × (find_scc g fuel insts no_scc ≡ some t)
      × ((x y : ℕ) → Reach g x y → Reach g y x → t.scc_id x ≡ t.scc_id y)
find_scc-cycle g insts fuel ok within h =
    let (t, eq, o) = find_scc-IsOrdered g insts ok within fuel h in
    (t, eq, λ x y r r'. omega (arith, scc_id_mono o r, scc_id_mono o r'))
