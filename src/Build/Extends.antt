-- ===== src/Build/Extends.antt =====
-- Graphs that grow by edges of the loop, as `buildPDG` (DSWP_1.cpp) adds them.
use dswp_plus.Base.{ℕ, ◌<◌, List, count, arith}
use dswp_plus.Pdg.{DType, Edge, Pdg, add_edge}
use dswp_plus.Pdg.Tables.{edge_count, IsConsistent, add_edge-IsConsistent, edge_count-add_edge}

abbrev pub edge : ℕ → ℕ → DType → Edge
edge u v t = record { u = u; v = v; dtype = t }

-- The edge stands in the graph.
abbrev pub HasEdge : ℕ → ℕ → DType → Pdg → Type 0
HasEdge u v t g = 0 < edge_count (record { u = u; v = v; dtype = t }) g.all_edges

-- The ends of every edge are instructions of the loop.
abbrev pub EdgesIn : List ℕ → Pdg → Type 0
EdgesIn insts g =
    (e : Edge) → 0 < edge_count e g.all_edges → (0 < count e.u insts) × (0 < count e.v insts)

-- A graph that grew by edges of the loop.
pub record Extends (insts : List ℕ) (g g' : Pdg) : Type 0 where
  pub ok : IsConsistent g'
  pub within : EdgesIn insts g → EdgesIn insts g'
  pub kept : (e : Edge) → 0 < edge_count e g.all_edges → 0 < edge_count e g'.all_edges

pub Extends-refl : (insts : List ℕ) {g : Pdg} → IsConsistent g → Extends insts g g
Extends-refl insts ok = record { ok = ok; within = λ w. w; kept = λ e h. h }

pub Extends-trans :
    {insts : List ℕ} {g g' g'' : Pdg}
    → Extends insts g g'
    → Extends insts g' g''
    → Extends insts g g''
Extends-trans p q = record {
  ok = q.ok;
  within = λ w. q.within (p.within w);
  kept = λ e h. q.kept e (p.kept e h);
}

pub add_edge-Extends :
    (insts : List ℕ) (u v : ℕ) (t : DType) {g : Pdg}
    → IsConsistent g
    → 0 < count u insts
    → 0 < count v insts
    → Extends insts g (add_edge u v t g) × HasEdge u v t (add_edge u v t g)
add_edge-Extends insts u v t {g} ok hu hv = (
  record {
    ok = add_edge-IsConsistent u v t ok;
    within = λ w e h. ground (arith, edge_count-add_edge u v t e ok, w e);
    kept = λ e h. ground (arith, edge_count-add_edge u v t e ok);
  },
  ground (arith, edge_count-add_edge u v t (record { u = u; v = v; dtype = t }) ok),
)
