-- ===== src/Scc/Graph.antt =====
-- The neighbours in `rev` are the neighbours in `pdg`, turned round.
use dswp_plus.Base.{ℕ, ◌≡◌, List, [], ◌∷◌, ◌==◌, count, arith, ◌<◌, Bool-cases, inl, inr}
use dswp_plus.Pdg.{Edge, flip, Pdg, targets}
use dswp_plus.Pdg.Tables.{edge_count, IsConsistent}

-- A target comes from an edge, and an edge gives its target.
pub targets-edge :
    (y : ℕ) (es : List Edge)
    → 0 < count y (targets es)
    → (e : Edge) × (e.v ≡ y) × (0 < edge_count e es)
targets-edge y [] h = absurd (omega arith)
targets-edge y (e ∷ es) h = elim (Bool-cases (y == e.v)) [
  | inl q ↦ (e, ground arith, ground arith)
  | inr q ↦ let (f, p, c) = targets-edge y es (ground arith) in (f, p, omega arith)
]

pub edge-targets : (e : Edge) (es : List Edge) → 0 < edge_count e es → 0 < count e.v (targets es)
edge-targets e [] h = absurd (omega arith)
edge-targets e (f ∷ es) h = ground (arith, edge-targets e es)

-- An edge of the graph, as the passes read it.
abbrev pub Depends : Pdg → ℕ → ℕ → Type 0
Depends g x y = 0 < count y (targets (g.pdg x))

pub rev-of-pdg :
    {g : Pdg} (x y : ℕ) → IsConsistent g → Depends g x y → 0 < count x (targets (g.rev y))
rev-of-pdg {g} x y ok h =
    let (e, p, c) = targets-edge y (g.pdg x) h in
    ground (arith, p, c, ok.forward e x, ok.backward e y, edge-targets (flip e) (g.rev y))

pub pdg-of-rev :
    {g : Pdg} (x y : ℕ) → IsConsistent g → 0 < count x (targets (g.rev y)) → Depends g x y
pdg-of-rev {g} x y ok h =
    let (f, p, c) = targets-edge x (g.rev y) h in
    let e = flip f in
    ground (arith, p, c, ok.forward e x, ok.backward e y, edge-targets e (g.pdg x))
