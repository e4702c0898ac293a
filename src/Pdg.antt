-- ===== src/Pdg.antt =====
-- The program dependence graph: `DType` and `Edge` of DSWP.h, and the tables `pdg`, `rev` and
-- `allEdges` with `DSWP::addEdge` of DSWP_0.cpp. An instruction is the number that stands for its
-- address; a `map` of vectors reads as the empty vector at an absent key.
pub mod Tables
mod Tests
use dswp_plus.Base.{
  ℕ, ◌≡◌, refl, Bool, true, false, ◌&&◌, List, [], ◌∷◌, ◌++◌, ◌==◌, if◌then◌else◌, update,
}

pub data DType : Type 0 where
  reg dtrue danti dout dsyn control control_lc : DType

-- The enumerators' values, by which C++ compares them.
abbrev pub dtype_value : DType → ℕ
dtype_value reg = 0
dtype_value dtrue = 1
dtype_value danti = 2
dtype_value dout = 3
dtype_value dsyn = 4
dtype_value control = 5
dtype_value control_lc = 6

pub record Edge : Type 0 where
  pub u : ℕ
  pub v : ℕ
  pub dtype : DType

-- `Edge::operator==`
abbrev pub same_edge : Edge → Edge → Bool
same_edge e f = (e.u == f.u) && (e.v == f.v) && (dtype_value e.dtype == dtype_value f.dtype)

-- The entry of `rev` for an edge.
abbrev pub flip : Edge → Edge
flip e = record { u = e.v; v = e.u; dtype = e.dtype }

-- `std::find(es.begin(), es.end(), e) != es.end()`
unfoldable pub has_edge : Edge → List Edge → Bool
has_edge e [] = false
has_edge e (f ∷ es) = if same_edge f e then true else has_edge e es

pub record Pdg : Type 0 where
  pub pdg : ℕ → List Edge
  pub rev : ℕ → List Edge
  pub all_edges : List Edge

-- The tables as `clear` leaves them.
abbrev pub no_edges : Pdg
no_edges = record { pdg = λ _. []; rev = λ _. []; all_edges = [] }

unfoldable pub add_edge : ℕ → ℕ → DType → Pdg → Pdg
add_edge u v t g =
    let e : Edge = record { u = u; v = v; dtype = t } in
    if has_edge e (g.pdg u) then g else record {
      pdg = update g.pdg u (g.pdg u ++ (e ∷ []));
      rev = update g.rev v (g.rev v ++ (flip e ∷ []));
      all_edges = g.all_edges ++ (e ∷ []);
    }

-- The ends of an instruction's edges, in the order of the table.
abbrev pub targets : List Edge → List ℕ
targets [] = []
targets (e ∷ es) = e.v ∷ targets es
