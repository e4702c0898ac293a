-- ===== src/Pipeline/Tests.antt =====
-- The passes on a loop of four instructions.
use dswp_plus.Base.{ℕ, ◌≡◌, ◌↔◌, count, ◌<◌, List, [], ◌∷◌, some, arith, ℤ}
use dswp_plus.Pdg.{Pdg, no_edges, add_edge, reg, control}
use dswp_plus.Pdg.Tables.{IsConsistent, no_edges-IsConsistent, add_edge-IsConsistent}
use dswp_plus.Scc.{Scc, no_scc, find_scc}
use dswp_plus.Scc.Order.{IsWithin, IsOrdered, find_scc-IsOrdered}
use dswp_plus.Scc.Reach.{Reach}
use dswp_plus.Scc.Strong.{find_scc-Reach}
use dswp_plus.Partition.{done, thread_partition}
use dswp_plus.Partition.Latency.{Opcode}
use dswp_plus.Partition.Tests.{largest_first}
use dswp_plus.Pipeline.{get_inst_assigned, IsPipeline, partition-IsPipeline}

-- A load 0 feeds the cycle of 1 and 2, which feeds the call 3.
abbrev sample : Pdg
unfolding add_edge
sample = add_edge 2 3 reg (add_edge 2 1 control (add_edge 1 2 reg (add_edge 0 1 reg no_edges)))

abbrev insts : List ℕ
insts = 0 ∷ 1 ∷ 2 ∷ 3 ∷ []

sample-IsConsistent : IsConsistent sample
unfolding sample
sample-IsConsistent = add_edge-IsConsistent 2 3 reg (
    add_edge-IsConsistent 2 1 control
      (add_edge-IsConsistent 1 2 reg (add_edge-IsConsistent 0 1 reg no_edges-IsConsistent)))

sample-IsWithin : IsWithin sample insts
unfolding sample
sample-IsWithin x y d = ground arith

partition-IsPipeline_example :
    (s : Scc) × (a : ℕ → ℤ) × (part : ℕ → List ℕ) × (find_scc sample 4 insts no_scc ≡ some s)
    × (thread_partition largest_first (λ _. Opcode.add) insts s s.scc_num ≡ done a part)
    × IsPipeline sample insts (get_inst_assigned s a)
partition-IsPipeline_example =
    partition-IsPipeline largest_first (λ _. Opcode.add) sample insts 4 sample-IsConsistent
      sample-IsWithin (omega arith)

find_scc-IsOrdered_example :
    (t : Scc) × (find_scc sample 4 insts no_scc ≡ some t) × IsOrdered sample insts t
find_scc-IsOrdered_example =
    find_scc-IsOrdered sample insts sample-IsConsistent sample-IsWithin 4 (omega arith)

find_scc-Reach_example :
    (t : Scc) × (find_scc sample 4 insts no_scc ≡ some t)
    × ((x y : ℕ)
        → 0 < count x insts
        → 0 < count y insts
        → (t.scc_id x ≡ t.scc_id y) ↔ (Reach sample x y × Reach sample y x))
find_scc-Reach_example =
    find_scc-Reach sample insts 4 sample-IsConsistent sample-IsWithin (omega arith)
