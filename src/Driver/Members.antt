-- ===== src/Driver/Members.antt =====
-- The members of the class `DSWP` (DSWP.h) from loop to loop: `clear` (DSWP_5.cpp), `initialize` and
-- the returns of `runOnLoop` (DSWP_0.cpp).
use dswp_plus.Base.{ℕ, ◌≡◌, ◌+◌, not, Option, none, some, List, [], ◌∷◌, ◌==◌, if◌then◌else◌, ℤ}
use dswp_plus.Pdg.{Pdg, no_edges}
use dswp_plus.Scc.{Scc, no_scc}
use dswp_plus.Driver.{LoopFacts, initialize}

-- Pointers to LLVM's objects are `none` where they are NULL; `util` and `ID` are left out. An absent
-- entry of `assigned` and of the maps to pointers is `none`.
pub record Members : Type 0 where
  pub module_of : Option ℕ
  pub func : Option ℕ
  pub header : Option ℕ
  pub predecessor : Option ℕ
  pub exit : Option ℕ
  pub context : Option ℕ
  pub ele_type : Option ℕ
  pub replace_block : Option ℕ
  pub arg_struct_ty : Option ℕ
  pub loop_counter : ℕ
  pub generated : List ℕ
  pub graph : Pdg
  pub scc : Scc
  pub idom : ℕ → Option ℕ
  pub postidom : ℕ → Option ℕ
  pub assigned : ℕ → Option ℤ
  pub part : ℕ → List ℕ
  pub inst_map : ℕ → ℕ → Option ℕ
  pub places : ℕ → ℕ → Option ℕ
  pub scc_latency : ℕ → ℕ
  pub new_to_old : ℕ → Option ℕ
  pub new_inst_assigned : ℕ → Option ℕ
  pub all_func : List ℕ
  pub livein : List ℕ
  pub defin : List ℕ
  pub liveout : List ℕ
  pub dname : ℕ → Option ℕ

-- The loop counter and the set of the generated functions stay.
unfoldable pub clear : Members → Members
clear m = record {
  module_of = none;
  func = none;
  header = none;
  predecessor = none;
  exit = none;
  context = none;
  ele_type = none;
  replace_block = none;
  arg_struct_ty = none;
  loop_counter = m.loop_counter;
  generated = m.generated;
  graph = no_edges;
  scc = no_scc;
  idom = λ _. none;
  postidom = λ _. none;
  assigned = λ _. none;
  part = λ _. [];
  inst_map = λ _ _. none;
  places = λ _ _. none;
  scc_latency = λ _. 0;
  new_to_old = λ _. none;
  new_inst_assigned = λ _. none;
  all_func = [];
  livein = [];
  defin = [];
  liveout = [];
  dname = λ _. none;
}

-- What `initialize` reads of a loop.
pub record LoopObjects : Type 0 where
  pub facts : LoopFacts
  pub module_ptr : ℕ
  pub func_ptr : ℕ
  pub header_ptr : ℕ
  pub context_ptr : ℕ
  pub int64_type : ℕ
  pub predecessor_ptr : Option ℕ
  pub exit_ptr : Option ℕ

-- The members that `initialize` sets; what it returns is `Driver.initialize`.
unfoldable pub set_members : LoopObjects → Members → Members
set_members l m = record m {
  module_of = some l.module_ptr;
  func = some l.func_ptr;
  header = some l.header_ptr;
  predecessor = l.predecessor_ptr;
  exit = l.exit_ptr;
  context = some l.context_ptr;
  ele_type = some l.int64_type;
  loop_counter = m.loop_counter + 1;
}

-- `runOnLoop` on the members. `steps` is all that the calls between `initialize` and the last `clear`
-- do to them, or those up to the return for a single component. What they do may be anything, but
-- none of them writes the counter, and `preLoopSplit` only adds to `generated`.
unfoldable pub run_members : (Members → Members) → LoopObjects → Members → Members
unfolding clear set_members initialize
run_members steps l m =
    if not (l.facts.depth == 1)
    then m
    else if l.facts.is_generated
    then m
    else if initialize l.facts
    then clear (set_members l m)
    else clear (steps (set_members l m))

-- The members as the first loop finds them: no pointer, no entry of a table, no element of a list.
-- The counter and the generated functions are free.
pub record IsCleared (m : Members) : Type 0 where
  pub no_module : m.module_of ≡ none
  pub no_func : m.func ≡ none
  pub no_header : m.header ≡ none
  pub no_predecessor : m.predecessor ≡ none
  pub no_exit : m.exit ≡ none
  pub no_context : m.context ≡ none
  pub no_ele_type : m.ele_type ≡ none
  pub no_replace_block : m.replace_block ≡ none
  pub no_arg_struct_ty : m.arg_struct_ty ≡ none
  pub no_graph : m.graph ≡ no_edges
  pub no_components : m.scc ≡ no_scc
  pub no_idom : (b : ℕ) → m.idom b ≡ none
  pub no_postidom : (b : ℕ) → m.postidom b ≡ none
  pub no_assigned : (k : ℕ) → m.assigned k ≡ none
  pub no_part : (t : ℕ) → m.part t ≡ []
  pub no_inst_map : (t u : ℕ) → m.inst_map t u ≡ none
  pub no_places : (t u : ℕ) → m.places t u ≡ none
  pub no_latency : (k : ℕ) → m.scc_latency k ≡ 0
  pub no_old : (u : ℕ) → m.new_to_old u ≡ none
  pub no_new_assigned : (u : ℕ) → m.new_inst_assigned u ≡ none
  pub no_functions : m.all_func ≡ []
  pub no_livein : m.livein ≡ []
  pub no_defin : m.defin ≡ []
  pub no_liveout : m.liveout ≡ []
  pub no_dname : (u : ℕ) → m.dname u ≡ none

-- The members after the loops of a list, each with its own steps.
abbrev pub run_all : List ((Members → Members) × LoopObjects) → Members → Members
run_all [] m = m
run_all (r ∷ rs) m = run_all rs (run_members r.0 r.1 m)
