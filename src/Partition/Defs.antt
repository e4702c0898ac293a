-- ===== src/Partition/Defs.antt =====
-- DSWP_3.cpp: `threadPartition` and the members that it writes.
use mathlib.Core.List.{foldl, Perm, Memᴰ}
use dswp_plus.Base.{
  ℕ, zero, suc, ◌≡◌, ◌+◌, ◌-◌, ◌/◌, Bool, true, false, not, ◌&&◌, Option, none, some, List, [], ◌∷◌,
  ◌++◌, ◌==◌, ltb, leb, if◌then◌else◌, update, ◌>>=◌, ℤ, pos, negsuc, is_neg, ◌==ℤ◌, to_ℕ, ◌||◌,
}
use dswp_plus.Scc.{Scc}
use dswp_plus.Partition.Latency.{Opcode, get_latency}

abbrev pub max_thread : ℕ
max_thread = 2

pub record QNode : Type 0 where
  pub u : ℕ
  pub latency : ℕ

-- `QNode::operator<`
abbrev pub qnode_lt : QNode → QNode → Bool
qnode_lt x y = ltb x.latency y.latency

-- `std::priority_queue<QNode>`, which is not part of the sources: `top` and `pop` on a queue that
-- is not empty take out one element, and none of the others is above it. Which one of several
-- largest elements that is stays open.
pub record PriorityQueue : Type 0 where
  pub take : QNode → List QNode → QNode × List QNode
  pub take_perm : (q : QNode) (qs : List QNode) → Perm (q ∷ qs) ((take q qs).0 ∷ (take q qs).1)
  pub take_max :
      (q : QNode) (qs : List QNode) (x : QNode) → Memᴰ x (q ∷ qs) → qnode_lt (take q qs).0 x ≡ false

-- -2 in `assigned`: not assigned
abbrev pub unassigned : ℤ
unassigned = negsuc 1

pub record Partition : Type 0 where
  pub assigned : ℕ → ℤ
  pub est_latency : ℕ → ℕ
  pub queue : List QNode

-- `sccLatency` and `totalLatency`
pub record Latencies : Type 0 where
  pub scc_latency : ℕ → ℕ
  pub total_latency : ℕ

module _ (opcode : ℕ → Opcode) (s : Scc) where
  -- The first loop of `threadPartition`, over the loop's instructions.
  unfoldable pub add_latency : Latencies → ℕ → Latencies
  unfolding get_latency
  add_latency l inst =
      let latency = get_latency (opcode inst) in
      record {
        scc_latency =
            update l.scc_latency (s.scc_id inst) (l.scc_latency (s.scc_id inst) + latency);
        total_latency = l.total_latency + latency;
      }

  unfoldable pub latencies : List ℕ → Latencies
  unfolding add_latency
  latencies insts = foldl add_latency (record { scc_latency = λ _. 0; total_latency = 0 }) insts

-- Whether no entry of `parents` is negative in `assigned`.
unfoldable pub can_sched : (ℕ → ℤ) → List ℕ → Bool
can_sched a [] = true
can_sched a (p ∷ ps) = if is_neg (a p) then false else can_sched a ps

-- Push a component that has no parents.
unfoldable pub seed : Scc → (ℕ → ℕ) → ℕ → List QNode → List QNode
seed s lat scc q = elim (s.parents scc) [
  | [] ↦ record { u = scc; latency = lat scc } ∷ q
  | _ ∷ _ ↦ q
]

-- The loop over the components that fills the first queue, with `n` left from `scc` on.
unfoldable pub ready_nodes : Scc → (ℕ → ℕ) → ℕ → ℕ → List QNode → List QNode
unfolding seed
ready_nodes s lat zero scc q = q
ready_nodes s lat (suc n) scc q = ready_nodes s lat n (scc + 1) (seed s lat scc q)

module _ (s : Scc) (lat : ℕ → ℕ) where
  -- The loop over `deps`: push each child whose parents have now all been assigned.
  unfoldable pub offer : Partition → ℕ → Partition
  unfolding can_sched
  offer p v =
      if p.assigned v ==ℤ unassigned
      then (if can_sched p.assigned (s.parents v)
          then record p { queue = record { u = v; latency = lat v } ∷ p.queue }
          else p)
      else p

  -- The body of the `while` loop for thread `i`, with `top` taken out of the queue.
  unfoldable pub schedule : ℕ → QNode → List QNode → Partition → Partition
  unfolding offer
  schedule i top rest p =
      foldl offer
        (record {
          assigned = update p.assigned top.u (pos i);
          est_latency = update p.est_latency i (p.est_latency i + top.latency);
          queue = rest;
        })
        (s.dependents top.u)

  module _ (pq : PriorityQueue) (aver : ℕ) where
    -- `while (!Q.empty())` for thread `i`; `none` means that the fuel ran out.
    unfoldable pub fill : ℕ → ℕ → Partition → Option Partition
    unfolding schedule
    fill zero i p = elim p.queue [ [] ↦ some p | _ ∷ _ ↦ none ]
    fill (suc f) i p = elim p.queue [
      | [] ↦ some p
      | q ∷ qs ↦
          let (top, rest) = pq.take q qs in
          let p' = schedule i top rest p in
          let again = fill f i p' in
          if leb aver (p'.est_latency i) && not (i == max_thread - 1) then some p' else again
    ]

    -- The loop over the threads, with `n` of them left.
    unfoldable pub fill_threads : ℕ → ℕ → ℕ → Partition → Option Partition
    unfolding fill
    fill_threads f zero i p = some p
    fill_threads f (suc n) i p = fill f i p >>= λ p'. fill_threads f n (i + 1) p'

-- How `threadPartition` ends: with `assigned` and `part`, or in `error`, which exits.
pub data Outcome : Type 0 where
  done : (ℕ → ℤ) → (ℕ → List ℕ) → Outcome
  bad_scc : ℕ → Outcome
  out_of_fuel : Outcome

-- The loop that fills `part`, with `n` components left from `i` on.
unfoldable pub fill_parts : (ℕ → ℤ) → ℕ → ℕ → (ℕ → List ℕ) → Outcome
fill_parts a zero i part = done a part
fill_parts a (suc n) i part =
    let t = to_ℕ (a i) in
    let rest = fill_parts a n (i + 1) (update part t (part t ++ (i ∷ []))) in
    if is_neg (a i) || leb max_thread t then bad_scc i else rest

-- From the end of the loop over the threads on, for `n` components.
unfoldable pub finish : ℕ → Option Partition → Outcome
unfolding fill_parts
finish n none = out_of_fuel
finish n (some p) = fill_parts p.assigned n 0 (λ _. [])

module _ (pq : PriorityQueue) (opcode : ℕ → Opcode) (insts : List ℕ) (s : Scc) where
  -- The state before the loop over the threads.
  unfoldable pub first_partition : Latencies → Partition
  unfolding ready_nodes
  first_partition l = record {
    assigned = λ _. unassigned;
    est_latency = λ _. 0;
    queue = ready_nodes s l.scc_latency s.scc_num 0 [];
  }

  unfoldable pub thread_partition : ℕ → Outcome
  unfolding latencies fill_threads finish first_partition
  thread_partition fuel =
      let l = latencies opcode s insts in
      let aver = l.total_latency / max_thread in
      finish s.scc_num (fill_threads s l.scc_latency pq aver fuel max_thread 0 (first_partition l))
