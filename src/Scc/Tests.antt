-- ===== src/Scc/Tests.antt =====
-- Small graphs on which the passes are followed by evaluation.
use dswp_plus.Base.{ℕ, ◌≡◌, refl, List, [], ◌∷◌, Option, some, none}
use dswp_plus.Pdg.{Pdg, no_edges, add_edge, reg, has_edge}
use dswp_plus.Scc.Defs.{Scc, no_scc, find_scc}

-- 1 → 2 → 1 is a cycle, and 0 is apart.
abbrev cycle : Pdg
unfolding add_edge has_edge
cycle = add_edge 2 1 reg (add_edge 1 2 reg no_edges)

abbrev ids : Option Scc → List ℕ
ids none = []
ids (some s) = s.scc_id 0 ∷ s.scc_id 1 ∷ s.scc_id 2 ∷ s.scc_num ∷ []

sample_cycle : ids (find_scc cycle 3 (1 ∷ 2 ∷ 0 ∷ []) no_scc) ≡ 0 ∷ 1 ∷ 1 ∷ 2 ∷ []
unfolding find_scc cycle
sample_cycle = refl
