-- ===== src/Driver/Tests.antt =====
-- The pass on a loop of one block, and the members on two loops.
use dswp_plus.Base.{ℕ, ◌≡◌, ◌↔◌, refl, true, false, none, some, List, [], ◌∷◌, arith, ◌⊎◌, ℤ}
use dswp_plus.Pdg.{Edge, Pdg, no_edges}
use dswp_plus.Build.Only.{Has}
use dswp_plus.Build.Data.Exact.{IsData}
use dswp_plus.Build.Blocks.Dummies.Peeling.{IsPeeling}
use dswp_plus.Build.Control.{Peeled}
use dswp_plus.Build.Control.Exact.{IsControl}
use dswp_plus.Build.Tests.{insts, sample, sample-IsAnalysis, sample-Supported}
use dswp_plus.Build.Whole.Tests.{loop_blocks, loop_blocks-IsLoopOf, loop_blocks-HasTree}
use dswp_plus.Scc.{Scc, no_scc, find_scc}
use dswp_plus.Partition.Latency.{Opcode}
use dswp_plus.Partition.Tests.{largest_first}
use dswp_plus.Pipeline.{get_inst_assigned, IsPipeline}
use dswp_plus.Driver.Members.{Members, LoopObjects}
use dswp_plus.Driver.{LoopFacts, unchanged, threads, run_on_loop, run_on_loop-IsPipeline}

abbrev facts : LoopFacts
facts = record { depth = 1; is_generated = false; has_exit = true; has_predecessor = true }

run_on_loop-IsPipeline_example :
    (g : Pdg) × (s : Scc) × (p : Peeled) × (dummies : List ℕ) × IsPeeling loop_blocks p dummies
    × ((e : Edge) → Has e g ↔ (IsData sample insts e ⊎ IsControl p dummies e))
    × (find_scc g 3 insts no_scc ≡ some s)
    × (((s.scc_num ≡ 1)
          × (run_on_loop sample loop_blocks insts largest_first (λ _. Opcode.add) 2 facts
              ≡ unchanged))
        ⊎ ((assigned : ℕ → ℤ) × (part : ℕ → List ℕ) × (run_on_loop sample loop_blocks insts
                largest_first
                (λ _. Opcode.add)
                2
                facts
              ≡ threads g s assigned part)
            × IsPipeline g insts (get_inst_assigned s assigned)))
run_on_loop-IsPipeline_example =
    run_on_loop-IsPipeline sample loop_blocks insts 1 sample-IsAnalysis loop_blocks-IsLoopOf
      loop_blocks-HasTree largest_first (λ _. Opcode.add) 2 facts
      (record { top_level = refl; original = refl; exits = refl; enters = refl }) (omega arith)
      sample-Supported

-- Before the first loop, with the counter at 0.
abbrev start : Members
start = record {
  module_of = none;
  func = none;
  header = none;
  predecessor = none;
  exit = none;
  context = none;
  ele_type = none;
  replace_block = none;
  arg_struct_ty = none;
  loop_counter = 0;
  generated = [];
  graph = no_edges;
  scc = no_scc;
  idom = λ _. none;
  postidom = λ _. none;
  assigned = λ _. none;
  part = λ _. [];
  inst_map = λ _ _. none;
  places = λ _ _. none;
  scc_latency = λ _. 0;
  new_to_old = λ _. none;
  new_inst_assigned = λ _. none;
  all_func = [];
  livein = [];
  defin = [];
  liveout = [];
  dname = λ _. none;
}

abbrev objects : LoopObjects
objects = record {
  facts = facts;
  module_ptr = 1;
  func_ptr = 2;
  header_ptr = 5;
  context_ptr = 3;
  int64_type = 64;
  predecessor_ptr = some 4;
  exit_ptr = some 9;
}

-- Steps that leave values and a new function in the members.
abbrev steps : Members → Members
steps m = record m { livein = 7 ∷ []; generated = 77 ∷ m.generated; scc_latency = λ _. 50 }
