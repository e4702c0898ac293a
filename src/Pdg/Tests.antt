-- ===== src/Pdg/Tests.antt =====
-- A graph of one edge, to which it is added a second time.
use dswp_plus.Base.{◌≡◌, refl}
use dswp_plus.Pdg.{Pdg, no_edges, has_edge, add_edge, reg, control}
use dswp_plus.Pdg.Tables.{IsConsistent, no_edges-IsConsistent, add_edge-IsConsistent}

abbrev one_edge : Pdg
one_edge = add_edge 1 2 reg no_edges

one_edge-IsConsistent : IsConsistent one_edge
one_edge-IsConsistent = add_edge-IsConsistent 1 2 reg no_edges-IsConsistent

add_edge-IsConsistent_example : IsConsistent (add_edge 2 1 control one_edge)
add_edge-IsConsistent_example = add_edge-IsConsistent 2 1 control one_edge-IsConsistent

added_twice : (add_edge 1 2 reg one_edge).all_edges ≡ one_edge.all_edges
unfolding add_edge has_edge
added_twice = refl
