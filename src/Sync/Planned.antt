-- ===== src/Sync/Planned.antt =====
-- What the first three steps of DSWP leave for `loopSplit` (DSWP_2.cpp, DSWP_3.cpp).
use dswp_plus.Base.{ℕ, ◌≡◌, sym, ap, subst, ◌∙◌, ◌≤◌, some, List, length, arith, ℤ, to_ℕ}
use dswp_plus.Pdg.{Pdg}
use dswp_plus.Pdg.Tables.{IsConsistent}
use dswp_plus.Scc.{Scc, no_scc, find_scc}
use dswp_plus.Scc.Order.{IsWithin, IsOrdered, find_scc-IsOrdered}
use dswp_plus.Partition.{PriorityQueue, done, thread_partition}
use dswp_plus.Partition.Latency.{Opcode}
use dswp_plus.Partition.Schedule.{IsTable}
use dswp_plus.Partition.Total.{IsPartition, thread_partition-IsPartition}
use dswp_plus.Pipeline.{get_inst_assigned, IsPipeline, IsOrdered-IsPipeline}
use dswp_plus.Split.Threads.{Loop}
use dswp_plus.Split.Threads.Crossing.{IsSplit}

-- What the first three steps have done: `s`, `a` and `part` are the members that they leave.
pub record IsPlanned (pq : PriorityQueue) (opcode : ℕ → Opcode) (g : Pdg) (insts : List ℕ)
    (fuel : ℕ) (s : Scc) (a : ℕ → ℤ) (part : ℕ → List ℕ) : Type 0 where
  pub consistent : IsConsistent g
  pub within : IsWithin g insts
  pub enough : length insts ≤ fuel
  pub components : find_scc g fuel insts no_scc ≡ some s
  pub threads : thread_partition pq opcode insts s s.scc_num ≡ done a part

-- The loop as `loopSplit` finds it, with these members.
abbrev pub planned : Loop → Pdg → Scc → (ℕ → ℤ) → (ℕ → List ℕ) → Loop
planned l g s a part = record l {
  graph = g;
  inst_in_scc = s.inst_in_scc;
  part = part;
  thread = get_inst_assigned s a;
}

module _ (pq : PriorityQueue) (opcode : ℕ → Opcode) (g : Pdg) (insts : List ℕ) (fuel : ℕ) (s : Scc)
    (a : ℕ → ℤ) (part : ℕ → List ℕ) (plan : IsPlanned pq opcode g insts fuel s a part) where
  planned-IsOrdered : IsOrdered g insts s
  planned-IsOrdered =
      let (t, eq, o) = find_scc-IsOrdered g insts plan.consistent plan.within fuel plan.enough in
      let same : some t ≡ some s = sym eq ∙ plan.components in
      let same' : t ≡ s = cc in subst (IsOrdered g insts) same' o

  planned-IsPartition : IsPartition s a part
  planned-IsPartition =
      let o = planned-IsOrdered in
      let table : IsTable s = record { upward = o.upward; deps = o.deps; pars = o.pars } in
      let (b, qart, eq, p) =
        thread_partition-IsPartition pq opcode insts s table s.scc_num (omega arith) in
      let same : done b qart ≡ done a part = sym eq ∙ plan.threads in
      let sa : b ≡ a = cc in
      let sp : qart ≡ part = cc in
      subst (λ c. IsPartition s c part) sa (subst (IsPartition s b) sp p)

  pub planned-IsPipeline : IsPipeline g insts (get_inst_assigned s a)
  planned-IsPipeline = IsOrdered-IsPipeline g insts s a part planned-IsOrdered planned-IsPartition

  pub planned-IsSplit : (l : Loop) → IsSplit (planned l g s a part) insts
  planned-IsSplit l =
      let o = planned-IsOrdered in
      let p = planned-IsPartition in
      record {
        tables = plan.consistent;
        component = s.scc_id;
        members = λ x c. ground (arith, o.members (s.scc_id x) x, c);
        parts = λ x i c t.
            let same : to_ℕ (a (s.scc_id x)) ≡ i = ap to_ℕ t in
            ground (arith, p.parts i (s.scc_id x), o.ids x c, same);
      }
