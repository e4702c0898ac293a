-- ===== src/Pdg/Tables.antt =====
-- The three tables of the dependence graph under `addEdge` (DSWP_0.cpp).
use dswp_plus.Base.{
  ℕ, ◌+◌, ◌≤◌, ◌<◌, ◌≡◌, refl, true, false, List, [], ◌∷◌, ◌++◌, ◌==◌, if◌then◌else◌, arith,
}
use dswp_plus.Pdg.{DType, Edge, same_edge, flip, has_edge, Pdg, no_edges, add_edge}

-- How often an edge stands in a list.
abbrev pub edge_count : Edge → List Edge → ℕ
edge_count e [] = 0
edge_count e (f ∷ es) = (if same_edge f e then 1 else 0) + edge_count e es

edge_count-snoc :
    (e f : Edge) (es : List Edge)
    → edge_count e (es ++ (f ∷ [])) ≡ edge_count e es + (if same_edge f e then 1 else 0)
edge_count-snoc e f [] = omega arith
edge_count-snoc e f (x ∷ es) = omega (arith, edge_count-snoc e f es)

has_edge-pos :
    (e f : Edge) (es : List Edge)
    → has_edge e es ≡ true
    → same_edge e f ≡ true
    → 0 < edge_count f es
unfolding has_edge
has_edge-pos e f [] h s = absurd (cc)
has_edge-pos e f (x ∷ es) h s = ground (arith, has_edge-pos e f es)

-- An edge stands in `allEdges` at most once, as often in `pdg` of its source and nowhere else in
-- `pdg`, and as often, flipped, in `rev` of its target and nowhere else in `rev`.
pub record IsConsistent (g : Pdg) : Type 0 where
  pub unique : (e : Edge) → edge_count e g.all_edges ≤ 1
  pub forward :
      (e : Edge) (w : ℕ)
      → edge_count e (g.pdg w) ≡ (if e.u == w then edge_count e g.all_edges else 0)
  pub backward :
      (e : Edge) (w : ℕ)
      → edge_count (flip e) (g.rev w) ≡ (if e.v == w then edge_count e g.all_edges else 0)

pub no_edges-IsConsistent : IsConsistent no_edges
no_edges-IsConsistent = record {
  unique = λ e. omega arith;
  forward = λ e w. ground arith;
  backward = λ e w. ground arith;
}

has_edge-same :
    (e f : Edge) (es : List Edge)
    → has_edge e es ≡ false
    → same_edge e f ≡ true
    → edge_count f es ≡ 0
unfolding has_edge
has_edge-same e f [] h s = refl
has_edge-same e f (x ∷ es) h s = ground (arith, has_edge-same e f es)

module _ (u v : ℕ) (t : DType) {g : Pdg} (ok : IsConsistent g) where
  abbrev added : Edge
  added = record { u = u; v = v; dtype = t }

  add_edge_unique : (e : Edge) → edge_count e (add_edge u v t g).all_edges ≤ 1
  unfolding add_edge
  add_edge_unique e = ground (
    arith,
    ok.unique e,
    ok.forward e u,
    has_edge-same added e (g.pdg u),
    edge_count-snoc e added g.all_edges,
  )

  add_edge-forward :
      (e : Edge) (w : ℕ)
      → edge_count e ((add_edge u v t g).pdg w)
        ≡ (if e.u == w then edge_count e (add_edge u v t g).all_edges else 0)
  unfolding add_edge
  add_edge-forward e w = ground (
    arith,
    ok.forward e w,
    edge_count-snoc e added g.all_edges,
    edge_count-snoc e added (g.pdg u),
  )

  add_edge-backward :
      (e : Edge) (w : ℕ)
      → edge_count (flip e) ((add_edge u v t g).rev w)
        ≡ (if e.v == w then edge_count e (add_edge u v t g).all_edges else 0)
  unfolding add_edge
  add_edge-backward e w = ground (
    arith,
    ok.backward e w,
    edge_count-snoc e added g.all_edges,
    edge_count-snoc (flip e) (flip added) (g.rev v),
  )

  -- `addEdge` keeps the three tables in step.
  pub add_edge-IsConsistent : IsConsistent (add_edge u v t g)
  add_edge-IsConsistent = record {
    unique = add_edge_unique;
    forward = add_edge-forward;
    backward = add_edge-backward;
  }

-- After `addEdge` the edge stands in `allEdges` once, whether or not it was there before, and every
-- other edge as often as before.
pub edge_count-add_edge :
    (u v : ℕ) (t : DType) {g : Pdg} (e : Edge)
    → IsConsistent g
    → edge_count e (add_edge u v t g).all_edges
      ≡ (if same_edge (record { u = u; v = v; dtype = t }) e then 1 else edge_count e g.all_edges)
unfolding add_edge
edge_count-add_edge u v t {g} e ok =
    let new : Edge = record { u = u; v = v; dtype = t } in
    ground (
      arith,
      ok.unique e,
      ok.forward e u,
      has_edge-same new e (g.pdg u),
      has_edge-pos new e (g.pdg u),
      edge_count-snoc e new g.all_edges,
    )
