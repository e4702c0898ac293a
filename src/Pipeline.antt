-- ===== src/Pipeline.antt =====
-- The second and third step of DSWP together: `findSCC` (DSWP_2.cpp), `threadPartition` and
-- `getInstAssigned` (DSWP_3.cpp).
mod Tests
use dswp_plus.Base.{
  ℕ, ◌≡◌, ap, ◌≤◌, ◌<◌, Bool, true, false, some, List, [], ◌∷◌, count, length, arith, ℤ, is_neg,
  to_ℕ, inl, inr,
}
use dswp_plus.Pdg.{Pdg}
use dswp_plus.Pdg.Tables.{IsConsistent}
use dswp_plus.Scc.{Scc, no_scc, find_scc}
use dswp_plus.Scc.Graph.{Depends}
use dswp_plus.Scc.Order.{IsWithin, IsOrdered, find_scc-IsOrdered}
use dswp_plus.Partition.{PriorityQueue, max_thread, done, thread_partition}
use dswp_plus.Partition.Latency.{Opcode}
use dswp_plus.Partition.Schedule.{IsTable}
use dswp_plus.Partition.Total.{IsPartition, thread_partition-IsPartition}

-- `getInstAssigned`, on the tables that the two steps leave.
abbrev pub get_inst_assigned : Scc → (ℕ → ℤ) → ℕ → ℤ
get_inst_assigned s a inst = a (s.scc_id inst)

-- The thread of every instruction exists, and no dependence leads to an earlier thread.
pub record IsPipeline (g : Pdg) (insts : List ℕ) (thread : ℕ → ℤ) : Type 0 where
  pub total :
      (x : ℕ) → 0 < count x insts → (is_neg (thread x) ≡ false) × (to_ℕ (thread x) < max_thread)
  pub forward : (x y : ℕ) → Depends g x y → to_ℕ (thread x) ≤ to_ℕ (thread y)

-- Components in order and a partition of them are a pipeline.
pub IsOrdered-IsPipeline :
    (g : Pdg) (insts : List ℕ) (s : Scc) (a : ℕ → ℤ) (part : ℕ → List ℕ)
    → IsOrdered g insts s
    → IsPartition s a part
    → IsPipeline g insts (get_inst_assigned s a)
IsOrdered-IsPipeline g insts s a part o p = record {
  total = λ x c. p.total (s.scc_id x) (o.ids x c);
  forward = λ x y d. elim (o.edges x y d) [
    | inl e ↦ omega (arith, ap (λ k. to_ℕ (a k)) e)
    | inr e ↦ p.forward (s.scc_id x) (s.scc_id y) e
  ];
}

-- Of a dependence graph whose three tables are in step and whose edges join instructions of the
-- loop, `findSCC` and then `threadPartition` return, given enough fuel, and what they leave is a
-- pipeline: each instruction has one of the threads, and the thread of an instruction is never
-- before that of one that it depends on.
pub partition-IsPipeline :
    (pq : PriorityQueue) (opcode : ℕ → Opcode) (g : Pdg) (insts : List ℕ) (fuel : ℕ)
    → IsConsistent g
    → IsWithin g insts
    → length insts ≤ fuel
    → (s : Scc) × (a : ℕ → ℤ) × (part : ℕ → List ℕ) × (find_scc g fuel insts no_scc ≡ some s)
      × (thread_partition pq opcode insts s s.scc_num ≡ done a part)
      × IsPipeline g insts (get_inst_assigned s a)
partition-IsPipeline pq opcode g insts fuel ok within h =
    let (s, eq, o) = find_scc-IsOrdered g insts ok within fuel h in
    let table : IsTable s = record { upward = o.upward; deps = o.deps; pars = o.pars } in
    let (a, part, eq', p) =
      thread_partition-IsPartition pq opcode insts s table s.scc_num (omega arith) in
    (s, a, part, eq, eq', IsOrdered-IsPipeline g insts s a part o p)
