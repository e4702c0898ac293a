-- ===== src/Sync/Placed/Tests.antt =====
-- Three instructions, of which 1 uses 0, from the dependence graph to the channel.
use mathlib.Core.List.{Memᴰ}
use dswp_plus.Base.{
  ℕ, zero, suc, ◌≡◌, ◌≢◌, refl, sym, subst, ◌≤◌, ◌<◌, ◌+◌, ◌⊎◌, true, false, Option, some, none,
  List, [], ◌∷◌, arith, ℤ, pos, to_ℕ,
}
use dswp_plus.Base.Result.{Result, ok, exits, no_fuel}
use dswp_plus.Pdg.{Pdg, Edge, reg}
use dswp_plus.Scc.{Scc, no_scc, find_scc}
use dswp_plus.Partition.{Outcome, done, bad_scc, out_of_fuel, thread_partition}
use dswp_plus.Partition.Latency.{Opcode}
use dswp_plus.Partition.Tests.{largest_first}
use dswp_plus.Pipeline.{get_inst_assigned}
use dswp_plus.Split.Code.Tests.{
  sample_cfg, sample_parent, sample_graph, sample_post, sample_dom, sample-IsCode,
  sample-IsPointable,
}
use dswp_plus.Split.Threads.{Names, Loop, Worker, thread_blocks, make_worker, block_map}
use dswp_plus.Split.Threads.Crossing.{IsReady}
use dswp_plus.Split.Code.Copy.Thread.{IsCode, no_copies}
use dswp_plus.Split.Code.Target.Nearest.{IsPointable}
use dswp_plus.Split.Pre.{field_types}
use dswp_plus.Pdg.Tables.{no_edges-IsConsistent, add_edge-IsConsistent}
use dswp_plus.Split.Threads.Tests.{loop, names, insts}
use dswp_plus.Sync.Casts.{integer}
use dswp_plus.Sync.Channels.{Call, Sites, insert_synchronization}
use dswp_plus.Sync.Channels.Laws.{IsPair, IsFrom, inserts, call_of}
use dswp_plus.Sync.Planned.{IsPlanned, planned, planned-IsSplit}
use dswp_plus.Sync.Placed.{placed_sites, AreMade, crossing-IsPlaced}

abbrev from_some : Option Scc → Scc
from_some none = no_scc
from_some (some s) = s

abbrev from_done : Outcome → (ℕ → ℤ) × (ℕ → List ℕ)
from_done (done a part) = (a, part)
from_done (bad_scc k) = ((λ _. pos 0), (λ _. []))
from_done out_of_fuel = ((λ _. pos 0), (λ _. []))

abbrev latency_of : ℕ → Opcode
latency_of x = Opcode.add

unfoldable members : Scc
unfolding find_scc sample_graph dswp_plus.Pdg.has_edge
members = from_some (find_scc sample_graph 3 insts no_scc)

unfoldable parts : (ℕ → ℤ) × (ℕ → List ℕ)
unfolding thread_partition members largest_first
parts = from_done (thread_partition largest_first latency_of insts members members.scc_num)

sample_threads :
    get_inst_assigned members parts.0 0
      ∷ get_inst_assigned members parts.0 1
      ∷ get_inst_assigned members parts.0 2
      ∷ []
    ≡ pos 0 ∷ pos 1 ∷ pos 1 ∷ []
unfolding members parts
sample_threads = refl

plan : IsPlanned largest_first latency_of sample_graph insts 3 members parts.0 parts.1
unfolding members parts sample_graph
plan = record {
  consistent = add_edge-IsConsistent 0 1 reg no_edges-IsConsistent;
  within = λ x y d. ground arith;
  enough = omega arith;
  components = refl;
  threads = refl;
}

abbrev found : Loop
found = planned loop sample_graph members parts.0 parts.1

enough : 3 ≤ 3
enough = omega arith

found_blocks : (i : ℕ) → i < 2 → thread_blocks found 3 i ≡ 5 ∷ []
unfolding thread_blocks members parts sample_graph dswp_plus.Pdg.has_edge
found_blocks zero h = refl
found_blocks (suc zero) h = refl
found_blocks (suc (suc i)) h = absurd (omega (arith, h))

-- Different addresses for the copies of different threads.
abbrev names_of : ℕ → Names
names_of i = record names { copy = λ x. x + x + i }

-- A value of 32 bits.
abbrev sites : Sites
sites = record {
  has_next = λ n. true;
  type_of = λ n. integer 32;
  used_by_insts = λ n. true;
  place = λ t n. none;
}

found-IsReady :
    (i : ℕ)
    → i < 2
    → IsReady found insts
        (planned-IsSplit largest_first latency_of sample_graph insts 3 members parts.0 parts.1 plan
          loop)
        3
        i
        (names_of i)
        3
        enough
unfolding block_map
found-IsReady i h =
    let e = found_blocks i h in
    record {
      code =
          subst
            (λ rel.
              IsCode sample_cfg 3 (block_map found 3 (names_of i) rel) found.thread i
                (λ x. x + x + i) sample_parent rel)
            (sym e)
            (sample-IsCode (block_map found 3 (names_of i) (5 ∷ [])) found.thread i
              (λ x. x + x + i));
      post = sample_post;
      dom = sample_dom;
      pointable = λ x c k.
          subst (λ rel. IsPointable sample_cfg 3 3 (block_map found 3 (names_of i) rel) enough x)
            (sym e)
            (sample-IsPointable (block_map found 3 (names_of i) (5 ∷ [])) 105 109 refl refl enough
              x);
      distinct = λ x y e. omega (arith, e);
    }

abbrev no_worker : Worker
no_worker = record {
  blocks = [];
  tables = no_copies;
  inst_map = λ _. none;
  operands = λ _. [];
  stores = [];
}

abbrev from_ok : Result Worker → Worker
from_ok (ok w) = w
from_ok exits = no_worker
from_ok no_fuel = no_worker

unfoldable workers : ℕ → Worker
unfolding make_worker thread_blocks members parts sample_graph dswp_plus.Pdg.has_edge
workers i = from_ok (make_worker found 3 i (names_of i) (thread_blocks found 3 i))

workers-AreMade :
    AreMade largest_first latency_of sample_graph insts 3 members parts.0 parts.1 plan loop 3 3
      enough names_of workers
      (λ _. true)
      sites
unfolding workers field_types
workers-AreMade = record {
  loop = record {
    enters = λ e. omega (arith, e);
    leaves = λ e. omega (arith, e);
    out_type = 8;
    types = λ k. refl;
  };
  ready = found-IsReady;
  made = made_of;
  copies = λ i x. refl;
  apart = λ i j x y h h' e. omega (arith, h, h', e);
  outside = λ x c. ground arith;
}
  where
    made_of :
        (i : ℕ)
        → i < 2
        → make_worker found 3 i (names_of i) (thread_blocks found 3 i) ≡ ok (workers i)
    made_of zero h = refl
    made_of (suc zero) h = refl
    made_of (suc (suc i)) h = absurd (omega (arith, h))

abbrev the_edge : Edge
the_edge = record { u = 0; v = 1; dtype = reg }

edge_listed : Memᴰ the_edge sample_graph.all_edges
unfolding sample_graph dswp_plus.Pdg.has_edge
edge_listed = Memᴰ.head refl

abbrev thread_of : ℕ → ℕ
thread_of x = to_ℕ (get_inst_assigned members parts.0 x)

edge_apart : thread_of 0 ≢ thread_of 1
unfolding members parts
edge_apart e = omega (arith, e)

abbrev full_sites : Sites
full_sites =
    placed_sites largest_first latency_of sample_graph insts 3 members parts.0 parts.1 plan loop 3 3
      enough names_of workers (λ _. true) sites

abbrev maps_of : ℕ → ℕ → Option ℕ
maps_of i = (workers i).inst_map

crossing-IsPlaced_example :
    let made =
      insert_synchronization thread_of maps_of (λ _. true) full_sites sample_graph.all_edges in
    (nu nv y : ℕ) × (thread_of 0 < thread_of 1)
    × IsPair thread_of maps_of (λ _. true) full_sites the_edge (thread_of 1) nu nv
    × (full_sites.place (thread_of 1) nu ≡ some (y + y + thread_of 1))
    × (loop.parent y ≡ loop.parent 0)
    × (((k : ℕ) × Memᴰ
            (call_of thread_of maps_of (λ _. true) full_sites the_edge (thread_of 1) nu nv k)
            made.calls)
        ⊎ ((made.exited ≡ true)
            × (c : Call) × IsFrom thread_of maps_of (λ _. true) full_sites sample_graph.all_edges c
            × (c.channel ≡ made.channel)
            × (inserts thread_of maps_of (λ _. true) full_sites c ≡ false)))
crossing-IsPlaced_example =
    crossing-IsPlaced largest_first latency_of sample_graph insts 3 members parts.0 parts.1 plan
      loop 3 3 enough names_of workers (λ _. true) sites workers-AreMade the_edge edge_listed
      edge_apart

-- No call ends in `error` here.
no_exit :
    (insert_synchronization thread_of maps_of (λ _. true) full_sites sample_graph.all_edges).exited
    ≡ false
unfolding insert_synchronization workers members parts sample_graph dswp_plus.Pdg.has_edge
no_exit = refl
