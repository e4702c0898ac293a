-- ===== src/Partition/Tests.antt =====
-- A priority queue by a search for the largest element, and small partitions.
use mathlib.Core.List.{Perm, Memᴰ}
use mathlib.Core.List.Perm
use mathlib.Core.List.Memᴰ
use dswp_plus.Base.{
  ℕ, ◌≡◌, ◌≤◌, ◌+◌, ◌/◌, ◌⊎◌, refl, true, false, List, [], ◌∷◌, if◌then◌else◌, Bool-cases, inl, inr,
  arith, update, ℤ,
}
use dswp_plus.Scc.{Scc, no_scc}
use dswp_plus.Partition.Latency.{Opcode, get_latency}
use dswp_plus.Partition.Defs.{
  QNode, qnode_lt, PriorityQueue, max_thread, add_latency, latencies, done, thread_partition,
}
use dswp_plus.Partition.Schedule.{IsTable}
use dswp_plus.Partition.Total.{IsPartition}
use dswp_plus.Partition.Balance.{load}
use dswp_plus.Partition.Fair.{thread_partition-shares}

unfoldable pub take : QNode → List QNode → QNode × List QNode
take q [] = (q, [])
take q (x ∷ xs) = let (t, r) = take x xs in if qnode_lt q t then (t, q ∷ r) else (q, x ∷ xs)

pub take_perm : (q : QNode) (qs : List QNode) → Perm (q ∷ qs) ((take q qs).0 ∷ (take q qs).1)
unfolding take
take_perm q [] = Perm.refl _
take_perm q (x ∷ xs) = elim (Bool-cases (qnode_lt q (take x xs).0)) [
  | inl e ↦ rw e (Perm.trans (Perm.cons q (take_perm x xs)) (Perm.swap _ _ _))
  | inr e ↦ rw e (Perm.refl _)
]

pub take_max :
    (q : QNode) (qs : List QNode) (x : QNode) → Memᴰ x (q ∷ qs) → qnode_lt (take q qs).0 x ≡ false
unfolding take
take_max q [] x m = elim (Memᴰ.cases_cons m) [
  | inl e ↦ ground (arith, e)
  | inr n ↦ absurd (Memᴰ.not-nil n)
]
take_max q (y ∷ ys) x m = elim (Memᴰ.cases_cons m) [
  | inl e ↦ ground (arith, e, take_max y ys y (Memᴰ.head refl))
  | inr n ↦ ground (arith, take_max y ys x n)
]

-- The assumptions on `std::priority_queue` can be met.
unfoldable pub largest_first : PriorityQueue
unfolding take
largest_first = record { take = take; take_perm = take_perm; take_max = take_max }

-- Component 0 feeds component 1, and 2 is apart.
abbrev table : Scc
table = record no_scc {
  scc_num = 3;
  scc_id = λ x. x;
  dependents = update (λ _. []) 0 (1 ∷ []);
  parents = update (λ _. []) 1 (0 ∷ []);
  dag_added = update (λ _ _. false) 0 (update (λ _. false) 1 true);
}

table-IsTable : IsTable table
table-IsTable = record {
  upward = λ a b h. ground arith;
  deps = λ a b. ground arith;
  pars = λ a b. ground arith;
}

latency_bound : (v : ℕ) → (latencies (λ _. Opcode.mul) table (0 ∷ 1 ∷ 2 ∷ [])).scc_latency v ≤ 150
unfolding latencies add_latency get_latency
latency_bound v = ground arith

thread_partition-shares_example :
    let l = latencies (λ _. Opcode.mul) table (0 ∷ 1 ∷ 2 ∷ []) in
    (a : ℕ → ℤ) × (part : ℕ → List ℕ) × (thread_partition largest_first
        (λ _. Opcode.mul)
        (0 ∷ 1 ∷ 2 ∷ [])
        table
        3
      ≡ done a part)
    × IsPartition table a part
    × (load l.scc_latency a 0 3 ≤ l.total_latency / max_thread + 150)
    × ((l.total_latency / max_thread ≤ load l.scc_latency a 0 3) ⊎ (load l.scc_latency a 1 3 ≡ 0))
thread_partition-shares_example =
    thread_partition-shares largest_first (λ _. Opcode.mul) (0 ∷ 1 ∷ 2 ∷ []) table 150 table-IsTable
      latency_bound 3 (omega arith)
