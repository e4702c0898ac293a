-- ===== src/Sync/Crossing.antt =====
-- The channels of DSWP_5.cpp for the threads of DSWP_3.cpp.
use mathlib.Core.List.{Memᴰ}
use dswp_plus.Base.{
  ℕ, ◌≡◌, sym, ◌∙◌, ◌≢◌, ◌<◌, Bool, true, false, Option, some, List, count, arith, ℤ, to_ℕ, ap,
}
use dswp_plus.Pdg.{Pdg, Edge, same_edge}
use dswp_plus.Pdg.Tables.{edge_count, IsConsistent}
use dswp_plus.Scc.Graph.{Depends, edge-targets}
use dswp_plus.Scc.Order.{IsWithin}
use dswp_plus.Pipeline.{IsPipeline}
use dswp_plus.Sync.Channels.{Sites, insert_synchronization}
use dswp_plus.Sync.Channels.Laws.{IsPair, call_of}
use dswp_plus.Sync.Channels.Covered.{insert_synchronization-IsSynced}

same_edge_self : (e : Edge) → same_edge e e ≡ true
same_edge_self e = ground arith

edge_count-Memᴰ : (e : Edge) (es : List Edge) → Memᴰ e es → 0 < edge_count e es
edge_count-Memᴰ e es (Memᴰ.head {x} {xs} same) =
    let t : same_edge x e ≡ true = ap (λ y. same_edge y e) (sym same) ∙ same_edge_self e in
    ground (arith, t)
edge_count-Memᴰ e es (Memᴰ.tail {x} {xs} m) = omega (arith, edge_count-Memᴰ e xs m)

pub Memᴰ-Depends : {g : Pdg} (e : Edge) → IsConsistent g → Memᴰ e g.all_edges → Depends g e.u e.v
Memᴰ-Depends {g} e ok m =
    ground (arith, edge_count-Memᴰ e g.all_edges m, ok.forward e e.u, edge-targets e (g.pdg e.u))

-- Let the threads be a pipeline for a dependence graph whose tables are in step, and let each
-- instruction of the loop have its copy in its own thread. Then every edge whose ends are in different
-- threads leads to a later one, between copies in these threads. If `insertProduce` and
-- `insertConsume` return for every call, then `insertSynchronization` makes a channel for it.
pub crossing-IsPair :
    (g : Pdg) (insts : List ℕ) (thread : ℕ → ℤ) (inst_map : ℕ → ℕ → Option ℕ) (is_inst : ℕ → Bool)
    (sites : Sites)
    → IsConsistent g
    → IsWithin g insts
    → IsPipeline g insts thread
    → let at = λ (x : ℕ). to_ℕ (thread x) in
      ((x : ℕ) → 0 < count x insts → (n : ℕ) × (inst_map (at x) x ≡ some n) × (is_inst n ≡ true))
      → (e : Edge) → Memᴰ e g.all_edges
      → at e.u ≢ at e.v
      → (nu nv : ℕ) × (at e.u < at e.v)
        × IsPair at inst_map is_inst sites e (at e.v) nu nv
        × ((insert_synchronization at inst_map is_inst sites g.all_edges).exited ≡ false
            → (k : ℕ) × Memᴰ
                (call_of at inst_map is_inst sites e (at e.v) nu nv k)
                (insert_synchronization at inst_map is_inst sites g.all_edges).calls)
crossing-IsPair g insts thread inst_map is_inst sites ok within pipe copies e m apart =
    let at = λ (x : ℕ). to_ℕ (thread x) in
    let d = Memᴰ-Depends e ok m in
    let (hu, hv) = within e.u e.v d in
    let (nu, pu, iu) = copies e.u hu in
    let (nv, pv, iv) = copies e.v hv in
    let later : at e.u < at e.v = ground (arith, pipe.forward e.u e.v d) in
    let pair : IsPair at inst_map is_inst sites e (at e.v) nu nv = record {
      source = pu;
      target = pv;
      source_inst = iu;
      target_inst = iv;
    } in
    let (_, bound) = pipe.total e.v hv in
    let synced = insert_synchronization-IsSynced at inst_map is_inst sites g.all_edges in
    (nu, nv, later, pair, λ on. synced.complete on e (at e.v) nu nv m later bound pair)
