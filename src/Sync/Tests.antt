-- ===== src/Sync/Tests.antt =====
-- Two threads with one dependence between them, a value on its way, and blocks to clean up.
use mathlib.Core.List.{Memᴰ, map}
use dswp_plus.Base.{
  ℕ, ◌≡◌, refl, ◌≢◌, List, ◌+◌, ◌<◌, ◌%◌, ◌^◌, Bool, true, false, Option, none, some, [], ◌∷◌, ◌==◌,
  if◌then◌else◌, arith, ltb, pos, ◌>>=◌,
}
use dswp_plus.Pdg.{Pdg, Edge, no_edges, add_edge, reg, control}
use dswp_plus.Pdg.Tables.{IsConsistent, no_edges-IsConsistent, add_edge-IsConsistent}
use dswp_plus.Scc.Order.{IsWithin}
use dswp_plus.Pipeline.{IsPipeline}
use dswp_plus.Runtime.Queue.{Queue}
use dswp_plus.Runtime.Channels.{num_queues, out_of_bounds, sync_produce, sync_consume, IsRuntime}
use dswp_plus.Sync.Channels.{Call, Sites, insert_synchronization}
use dswp_plus.Sync.Channels.Bounds.{insert_synchronization-bounded}
use dswp_plus.Sync.Channels.Covered.{IsSynced, insert_synchronization-IsSynced}
use dswp_plus.Sync.Clean.{Cut, clean_up, move_produces}
use dswp_plus.Sync.Clean.Tidy.{IsBlock, block_of, tidied, clean_up-tidied}
use dswp_plus.Sync.Casts.{
  Ty, integer, pointer, floating, float, Cast, zext, trunc, bit_cast, ptr_to_int, int_to_ptr, Node,
  inst, produce_cast, produce_call, consume_call, consume_cast, produce_with,
}
use dswp_plus.Sync.Casts.RoundTrip.{Casts, ele_type, produce_consume}
use dswp_plus.Sync.Casts.Branch.{produce_all, move_produces-produce_all}

abbrev edge : Edge
edge = record { u = 0; v = 1; dtype = reg }

abbrev sample : Pdg
unfolding add_edge
sample = add_edge 0 1 reg no_edges

-- Instruction `x` is in thread `x`; every thread has the copy `x + 10` of it.
abbrev thread : ℕ → ℕ
thread x = if x == 0 then 0 else 1

abbrev copy : ℕ → ℕ → Option ℕ
copy t x = some (x + 10)

-- A place for each value, all of 32 bits.
abbrev sites : Sites
sites = record {
  has_next = λ n. true;
  type_of = λ n. integer 32;
  used_by_insts = λ n. true;
  place = λ t n. some (n + 100);
}

insert_synchronization-IsSynced_example :
    IsSynced thread copy
      (λ n. true)
      sites
      (edge ∷ edge ∷ [])
      (insert_synchronization thread copy (λ n. true) sites (edge ∷ edge ∷ []))
insert_synchronization-IsSynced_example =
    insert_synchronization-IsSynced thread copy (λ n. true) sites (edge ∷ edge ∷ [])

insert_synchronization-bounded_example :
    let s = insert_synchronization thread copy (λ n. true) sites (edge ∷ edge ∷ []) in
    ((c : Call) → Memᴰ c s.calls → c.channel < num_queues)
    × ((c d : Call) → Memᴰ c s.calls → Memᴰ d s.calls → c.channel ≡ d.channel → c ≡ d)
    × ((c : Call) (elem : ℕ) (queues : List Queue)
        → Memᴰ c s.calls
        → IsRuntime queues
        → (sync_produce elem c.channel queues ≢ out_of_bounds)
          × (sync_consume c.channel queues ≢ out_of_bounds))
insert_synchronization-bounded_example =
    insert_synchronization-bounded thread copy (λ n. true) sites (edge ∷ edge ∷ []) (omega arith)

sample-IsConsistent : IsConsistent sample
unfolding sample
sample-IsConsistent = add_edge-IsConsistent 0 1 reg no_edges-IsConsistent

sample-IsWithin : IsWithin sample (0 ∷ 1 ∷ [])
unfolding sample add_edge
sample-IsWithin x y d = ground arith

sample-IsPipeline : IsPipeline sample (0 ∷ 1 ∷ []) (λ x. pos (thread x))
unfolding sample add_edge
sample-IsPipeline = record { total = λ x h. (refl, ground arith); forward = λ x y d. ground arith }

sample_edge : Memᴰ edge sample.all_edges
unfolding sample add_edge dswp_plus.Pdg.has_edge
sample_edge = Memᴰ.head refl

-- Casts on a machine with pointers of 64 bits.
abbrev cut_to : Cast → Ty → ℕ → ℕ
cut_to trunc (integer w) x = x % 2 ^ w
cut_to trunc float x = x
cut_to trunc (floating w) x = x
cut_to trunc pointer x = x
cut_to trunc Ty.other_type x = x
cut_to int_to_ptr t x = x % 2 ^ 64
cut_to zext t x = x
cut_to bit_cast t x = x
cut_to ptr_to_int t x = x

abbrev machine : Casts 64
machine = record {
  run = λ c from to x. cut_to c to x;
  run_zext = λ w k x h b. refl;
  run_trunc = λ w k x h b. refl;
  run_from_floating = λ w x b. refl;
  run_to_floating = λ w x b. refl;
  run_ptr_to_int = λ k x h b. refl;
  run_int_to_ptr = λ k x h b. refl;
}

produce_consume_example :
    (p : Cast) × (produce_with (integer 8) ≡ some p)
    × (machine.run trunc ele_type (integer 8) (machine.run p (integer 8) ele_type 200) ≡ 200)
unfolding dswp_plus.Sync.Casts.consume_with
produce_consume_example =
    produce_consume machine (integer 8) 200 trunc refl (omega arith, omega arith)

-- Phi nodes are below 10, the terminator is 50.
abbrev is_term : ℕ → Bool
is_term x = x == 50

abbrev is_phi : ℕ → Bool
is_phi x = ltb x 10

abbrev block : Cut ℕ
block = record { before = 1 ∷ 20 ∷ 2 ∷ []; at = 50; after = 31 ∷ 30 ∷ 3 ∷ [] }

sample_block : tidied is_term is_phi block ≡ 1 ∷ 2 ∷ 3 ∷ 20 ∷ 30 ∷ 31 ∷ 50 ∷ []
sample_block = refl

block-IsBlock : IsBlock is_term is_phi block
block-IsBlock = record {
  term = refl;
  nonphi = refl;
  before = (refl, (refl, (refl, tt)));
  after = (refl, (refl, (refl, tt)));
}

clean_up-tidied_example :
    clean_up is_term is_phi (map (block_of is_term is_phi) (block ∷ block ∷ []))
    ≡ some (map (tidied is_term is_phi) (block ∷ block ∷ []))
clean_up-tidied_example =
    clean_up-tidied is_term is_phi (block ∷ block ∷ []) (block-IsBlock, (block-IsBlock, tt))

abbrev node_is_term : Node → Bool
node_is_term (inst x) = x == 5
node_is_term (produce_cast c u) = false
node_is_term (produce_call c k) = false
node_is_term (consume_call k) = false
node_is_term (consume_cast c k) = false

move_produces-produce_all_example :
    (produce_all control (integer 1) 5 (0 ∷ 1 ∷ []) (inst 4 ∷ inst 5 ∷ [])
      >>= move_produces node_is_term (λ n. false))
    ≡ some (inst 4 ∷ produce_call none 0 ∷ produce_call none 1 ∷ inst 5 ∷ [])
move_produces-produce_all_example =
    move_produces-produce_all node_is_term (λ n. false) control (integer 1) 5 (0 ∷ 1 ∷ [])
      (inst 4 ∷ []) refl refl refl (λ k. refl) (refl, tt) (refl, tt)
