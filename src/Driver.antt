-- ===== src/Driver.antt =====
-- DSWP_0.cpp, `DSWP::runOnLoop` with `DSWP::initialize` up to the plan of the threads, that is up
-- to `threadPartition`. The steps behind it change LLVM's code; the calls that print are left out.
pub mod Members
pub mod Declarations
mod Tests
use dswp_plus.Base.{
  ℕ, ◌≡◌, ◌≢◌, ◌↔◌, refl, ◌⊎◌, inl, inr, ◌≤◌, ◌<◌, Bool, true, false, not, ◌||◌, Option, none, some,
  List, [], ◌∷◌, ◌==◌, if◌then◌else◌, ◌>>=◌, count, length, arith, ℤ, Bool-cases, eq-of-==,
}
use dswp_plus.Pdg.{Edge, Pdg, no_edges, targets}
use dswp_plus.Pdg.Tables.{edge_count, IsConsistent}
use dswp_plus.Build.Data.{Analysis}
use dswp_plus.Build.Extends.{EdgesIn}
use dswp_plus.Build.Only.{Has}
use dswp_plus.Build.Data.Edges.{IsAnalysis, Supported}
use dswp_plus.Build.Data.Exact.{IsData}
use dswp_plus.Build.Blocks.Dummies.{LoopBlocks}
use dswp_plus.Build.Blocks.Dummies.Peeling.{IsLoopOf, IsPeeling}
use dswp_plus.Build.Control.{Peeled}
use dswp_plus.Build.Control.Exact.{IsControl}
use dswp_plus.Build.Whole.{build_pdg, HasTree, build_pdg-IsExact}
use dswp_plus.Scc.{Scc, no_scc, find_scc}
use dswp_plus.Scc.Graph.{Depends, targets-edge}
use dswp_plus.Scc.Order.{IsWithin}
use dswp_plus.Partition.{PriorityQueue, Outcome, done, bad_scc, out_of_fuel, thread_partition}
use dswp_plus.Partition.Latency.{Opcode}
use dswp_plus.Pipeline.{get_inst_assigned, IsPipeline, partition-IsPipeline}

-- What the code asks of a loop: `getLoopDepth`, whether its function is in `generated`, and whether
-- `getExitBlock` and `getLoopPredecessor` are not NULL.
pub record LoopFacts : Type 0 where
  pub depth : ℕ
  pub is_generated : Bool
  pub has_exit : Bool
  pub has_predecessor : Bool

-- Whether `initialize` gives the loop up.
unfoldable pub initialize : LoopFacts → Bool
initialize l = if not l.has_exit then true else if not l.has_predecessor then true else false

-- How the part of `runOnLoop` ends: it returns false, it has the tables from which the threads are
-- made, or `error` or a lack of fuel ends it.
pub data Plan : Type 0 where
  unchanged : Plan
  threads : Pdg → Scc → (ℕ → ℤ) → (ℕ → List ℕ) → Plan
  failed : Plan

module _ (a : Analysis) (c : LoopBlocks) (insts : List ℕ) where
  module _ (pq : PriorityQueue) (opcode : ℕ → Opcode) where
    -- From `findSCC` on. The fuel for the passes is the number of instructions, and for the
    -- partition that of the components.
    unfoldable pub plan_threads : Pdg → Plan
    unfolding find_scc thread_partition
    plan_threads g = elim (find_scc g (length insts) insts no_scc) [
      | none ↦ failed
      | some s ↦
          if s.scc_num == 1
          then unchanged
          else elim (thread_partition pq opcode insts s s.scc_num) [
            | done assigned part ↦ threads g s assigned part
            | bad_scc i ↦ failed
            | out_of_fuel ↦ failed
          ]
    ]

    unfoldable pub run_on_loop : ℕ → LoopFacts → Plan
    unfolding initialize build_pdg plan_threads
    run_on_loop fuel l =
        if not (l.depth == 1)
        then unchanged
        else if l.is_generated
        then unchanged
        else if initialize l
        then unchanged
        else elim (build_pdg a c insts fuel no_edges) [ none ↦ failed | some g ↦ plan_threads g ]

-- The loop is one that the pass takes on.
pub record IsEligible (l : LoopFacts) : Type 0 where
  pub top_level : l.depth ≡ 1
  pub original : l.is_generated ≡ false
  pub exits : l.has_exit ≡ true
  pub enters : l.has_predecessor ≡ true

-- A graph whose edges are of the loop, as the passes read it.
EdgesIn-IsWithin : {g : Pdg} (insts : List ℕ) → IsConsistent g → EdgesIn insts g → IsWithin g insts
EdgesIn-IsWithin {g} insts ok within x y d =
    let (e, same, c) = targets-edge y (g.pdg x) d in
    let (hu, hv) = within e (ground (arith, ok.forward e x, c)) in
    (ground (arith, ok.forward e x, c, hu), ground (arith, same, hv))

module _ (a : Analysis) (c : LoopBlocks) (insts : List ℕ) (depth : ℕ) (law : IsAnalysis a insts)
    (loop : IsLoopOf c insts) (tree : HasTree c depth) where
  -- Let the loop be one that the pass takes on, let LLVM's answers stay within the loop, let no
  -- instruction have a non-local dependence that the code has no case for, let the dummy blocks have
  -- different addresses and LLVM's tree for them be that of their postdominators, and let the fuel exceed
  -- its depth. Then `runOnLoop` finds the dependence graph, with the register, memory and control
  -- dependences of the loop's instructions and no other edge, and its components. If there is one
  -- component it returns without a change; otherwise it gets to its last part with threads that are a
  -- pipeline for the graph.
  pub run_on_loop-IsPipeline :
      (pq : PriorityQueue) (opcode : ℕ → Opcode) (fuel : ℕ) (l : LoopFacts)
      → IsEligible l
      → depth < fuel
      → ((x : ℕ) → 0 < count x insts → Supported a x (a.dependency x))
      → (g : Pdg) × (s : Scc) × (p : Peeled) × (dummies : List ℕ) × IsPeeling c p dummies
        × ((e : Edge) → Has e g ↔ (IsData a insts e ⊎ IsControl p dummies e))
        × (find_scc g (length insts) insts no_scc ≡ some s)
        × (((s.scc_num ≡ 1) × (run_on_loop a c insts pq opcode fuel l ≡ unchanged))
            ⊎ ((assigned : ℕ → ℤ) × (part : ℕ → List ℕ) × (run_on_loop a c insts pq opcode fuel l
                  ≡ threads g s assigned part)
                × IsPipeline g insts (get_inst_assigned s assigned)))
  unfolding run_on_loop plan_threads initialize
  run_on_loop-IsPipeline pq opcode fuel l ok h supported =
      let (g, p, dummies, eq, peeling, tables, within, exact) =
        build_pdg-IsExact a c insts depth fuel law supported loop tree h in
      let (s, assigned, part, eq', eq'', pipe) =
        partition-IsPipeline pq opcode g insts (length insts) tables
          (EdgesIn-IsWithin insts tables within) (omega arith) in
      (
        g,
        s,
        p,
        dummies,
        peeling,
        exact,
        eq',
        elim (Bool-cases (s.scc_num == 1)) [
          | inl one ↦ inl (
            eq-of-== s.scc_num 1 one,
            rw (ok.top_level, ok.original, ok.exits, ok.enters, eq, plan_threads, eq', one) refl,
          )
          | inr more ↦ inr (
            assigned,
            part,
            rw (ok.top_level, ok.original, ok.exits, ok.enters, eq, plan_threads, eq', more, eq'')
                refl,
            pipe,
          )
        ],
      )
