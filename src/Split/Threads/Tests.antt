-- ===== src/Split/Threads/Tests.antt =====
-- The function of the second thread for a loop of one block.
use dswp_plus.Base.{
  ℕ, ◌<◌, count, zero, suc, ◌⊎◌, ◌≡◌, subst, sym, refl, ◌≤◌, List, [], ◌∷◌, ◌==◌, if◌then◌else◌,
  arith, ◌+◌,
}
use dswp_plus.Base.Result.{ok, exits}
use dswp_plus.Pdg.Tables.{no_edges-IsConsistent, add_edge-IsConsistent}
use dswp_plus.Pdg.{reg}
use dswp_plus.Split.Code.Copy.{Copies, copy_blocks}
use dswp_plus.Split.Code.Copy.Thread.{no_copies, IsCode}
use dswp_plus.Split.Code.Tests.{
  sample_cfg, sample_parent, sample_graph, sample_thread, sample_post, sample_dom, sample-IsCode,
  sample-IsPointable,
}
use dswp_plus.Split.Threads.{Names, Loop, Worker, make_worker, loop_split, thread_blocks, block_map}
use dswp_plus.Split.Threads.Total.{IsLoop, LacksHeader, AreWorkers, loop_split-AreWorkers}
use dswp_plus.Split.Threads.Operands.{made_for, AreOperands, make_worker-AreOperands}
use dswp_plus.Split.Pre.{field_types}
use dswp_plus.Split.Code.Target.{NewInst}
use dswp_plus.Split.Code.Target.Nearest.{IsPointable}
use dswp_plus.Split.Threads.Crossing.{IsSplit, IsReady, HasPlaces, copy_blocks-HasPlaces}

-- 0 and 2 are the first component, 1 the second. The loop takes in 7 and gives out 1.
abbrev pub loop : Loop
loop = record {
  cfg = sample_cfg;
  parent = sample_parent;
  type_of = λ x. 64;
  operands = λ x. if x == 1 then 0 ∷ 7 ∷ [] else [];
  header = 5;
  predecessor = 4;
  graph = sample_graph;
  inst_in_scc = (0 ∷ 2 ∷ []) ∷ (1 ∷ []) ∷ [];
  part = λ i. if i == 0 then 0 ∷ [] else if i == 1 then 1 ∷ [] else [];
  thread = sample_thread;
  livein = 7 ∷ [];
  liveout = 1 ∷ [];
  arg_types = 64 ∷ 8 ∷ [];
}

abbrev pub names : Names
names = record {
  copy = λ x. x + 20;
  copied = λ b. b + 100;
  entry = 100;
  last = 109;
  loaded = λ j. j + 50;
}

abbrev pub insts : List ℕ
insts = 0 ∷ 1 ∷ 2 ∷ []

sample_blocks : thread_blocks loop 3 1 ≡ 5 ∷ []
unfolding thread_blocks sample_graph dswp_plus.Pdg.has_edge
sample_blocks = refl

loop-IsSplit : IsSplit loop insts
unfolding sample_graph
loop-IsSplit = record {
  tables = add_edge-IsConsistent 0 1 reg no_edges-IsConsistent;
  component = λ x. if x == 1 then 1 else 0;
  members = λ x c. ground arith;
  parts = λ x i c t. ground arith;
}

enough : 3 ≤ 3
enough = omega arith

ready_for :
    (i : ℕ) → thread_blocks loop 3 i ≡ 5 ∷ [] → IsReady loop insts loop-IsSplit 3 i names 3 enough
unfolding block_map
ready_for i e = record {
  code =
      subst
        (λ rel.
          IsCode sample_cfg 3 (block_map loop 3 names rel) sample_thread i (λ x. x + 20)
            sample_parent rel)
        (sym e) (sample-IsCode (block_map loop 3 names (5 ∷ [])) sample_thread i (λ x. x + 20));
  post = sample_post;
  dom = sample_dom;
  pointable = λ x c k.
      subst (λ rel. IsPointable sample_cfg 3 3 (block_map loop 3 names rel) enough x) (sym e)
        (sample-IsPointable (block_map loop 3 names (5 ∷ [])) 105 109 refl refl enough x);
  distinct = λ x y e. omega (arith, e);
}

loop-IsReady : (i : ℕ) → i < 2 → IsReady loop insts loop-IsSplit 3 i names 3 enough
unfolding thread_blocks sample_graph dswp_plus.Pdg.has_edge
loop-IsReady zero h = ready_for 0 refl
loop-IsReady (suc zero) h = ready_for 1 refl
loop-IsReady (suc (suc i)) h = absurd (omega (arith, h))

loop-IsLoop : IsLoop loop insts loop-IsSplit 3 3 enough
unfolding field_types
loop-IsLoop = record {
  enters = λ e. omega (arith, e);
  leaves = λ e. omega (arith, e);
  out_type = 8;
  types = λ k. refl;
}

loop_split-AreWorkers_example :
    ((i : ℕ) × (i < 2)
      × LacksHeader loop insts loop-IsSplit 3 3 enough i
      × (loop_split loop 3 (λ _. names) ≡ exits))
    ⊎ ((ws : List Worker) × (loop_split loop 3 (λ _. names) ≡ ok ws)
        × AreWorkers loop insts loop-IsSplit 3 3 enough (λ _. names) 2 0 ws)
loop_split-AreWorkers_example =
    loop_split-AreWorkers loop insts loop-IsSplit 3 3 enough (λ _. names) loop-IsLoop loop-IsReady

has_header : 0 < count 5 (thread_blocks loop 3 1)
unfolding thread_blocks sample_graph dswp_plus.Pdg.has_edge
has_header = omega arith

copy_blocks-HasPlaces_example :
    (t : Copies) × (copy_blocks sample_cfg 3
        (block_map loop 3 names (thread_blocks loop 3 1))
        sample_thread
        1
        (λ x. x + 20)
        (λ b. b + 100)
        (thread_blocks loop 3 1)
        no_copies
      ≡ ok t)
    × HasPlaces loop insts loop-IsSplit 3 1 names 3 enough t
copy_blocks-HasPlaces_example =
    copy_blocks-HasPlaces loop insts loop-IsSplit 3 1 names 3 enough (loop-IsReady 1 (omega arith))

make_worker-AreOperands_example :
    (w : Worker) × (make_worker loop 3 1 names (thread_blocks loop 3 1) ≡ ok w)
    × ((x target : ℕ)
        → made_for loop insts loop-IsSplit 3 3 enough 1 names x ≡ ok (NewInst.jump target)
        → w.operands x ≡ [])
    × ((x : ℕ) (blocks : List ℕ)
        → made_for loop insts loop-IsSplit 3 3 enough 1 names x ≡ ok (NewInst.cloned blocks)
        → AreOperands loop insts loop-IsSplit 3 3 enough 1 names (loop.operands x) (w.operands x))
make_worker-AreOperands_example =
    make_worker-AreOperands loop insts loop-IsSplit 3 3 enough 1 names loop-IsLoop
      (loop-IsReady 1 (omega arith)) has_header
