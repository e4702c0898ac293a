-- ===== src/Sync/Placed.antt =====
-- The five steps of DSWP together, for one dependence between two threads: the components and threads
-- (DSWP_2.cpp, DSWP_3.cpp), the functions of the threads (DSWP_4.cpp) and the channel (DSWP_5.cpp).
mod Tests
use mathlib.Core.List.{Memᴰ}
use dswp_plus.Base.{
  ℕ, zero, suc, ◌≡◌, ◌≢◌, refl, sym, ap, subst, ◌∙◌, ◌≤◌, ◌<◌, Bool, true, false, Option, some,
  none, List, count, get_or, length, ltb, ◌&&◌, ◌==◌, if◌then◌else◌, arith, inl, inr, ◌⊎◌,
  Bool-cases, Option-cases, eq-of-==, ne-of-==, ℤ, pos, negsuc, to_ℕ, is_neg,
}
use dswp_plus.Base.Result.{ok, exits}
use dswp_plus.Pdg.{Pdg, Edge}
use dswp_plus.Pdg.Tables.{IsConsistent}
use dswp_plus.Scc.{Scc, no_scc, find_scc}
use dswp_plus.Scc.Graph.{Depends}
use dswp_plus.Scc.Order.{IsWithin, IsOrdered, find_scc-IsOrdered}
use dswp_plus.Partition.{PriorityQueue, max_thread, done, thread_partition}
use dswp_plus.Partition.Latency.{Opcode}
use dswp_plus.Partition.Schedule.{IsTable}
use dswp_plus.Partition.Total.{IsPartition, thread_partition-IsPartition}
use dswp_plus.Pipeline.{get_inst_assigned, IsPipeline, IsOrdered-IsPipeline}
use dswp_plus.Split.Pre.{map_outs}
use dswp_plus.Split.Pre.Struct.{Holds-count, map_outs-Holds}
use dswp_plus.Split.Code.Copy.{Copies}
use dswp_plus.Split.Threads.{Names, Loop, Worker, thread_blocks, make_worker}
use dswp_plus.Split.Threads.Crossing.{IsSplit, IsReady, HasPlaces, or_else, place_of}
use dswp_plus.Split.Threads.Total.{IsLoop, IsWorker, make_worker_lem}
use dswp_plus.Split.Threads.NewToOld.{all_new_to_old, all_new_to_old_lem, place_of_same}
use dswp_plus.Sync.Planned.{IsPlanned, planned, planned-IsPipeline, planned-IsSplit}
use dswp_plus.Sync.Channels.{Call, Sites, insert_synchronization}
use dswp_plus.Sync.Channels.Laws.{IsPair, IsFrom, inserts, call_of}
use dswp_plus.Sync.Channels.Covered.{insert_synchronization-IsSynced}
use dswp_plus.Sync.Crossing.{crossing-IsPair, Memᴰ-Depends}

pos-to_ℕ : (z : ℤ) → is_neg z ≡ false → z ≡ pos (to_ℕ z)
pos-to_ℕ (pos n) h = refl
pos-to_ℕ (negsuc n) h = absurd (cc)

module _ (pq : PriorityQueue) (opcode : ℕ → Opcode) (g : Pdg) (insts : List ℕ) (fuel : ℕ) (s : Scc)
    (a : ℕ → ℤ) (part : ℕ → List ℕ) (plan : IsPlanned pq opcode g insts fuel s a part) where
  module _ (base : Loop) (depth steps : ℕ) (enough : depth ≤ steps) (names : ℕ → Names)
      (workers : ℕ → Worker) (is_inst : ℕ → Bool) (sites : Sites) where
    -- `instMap`, and `getInstAssigned` as an index.
    abbrev pub maps : ℕ → ℕ → Option ℕ
    maps i = (workers i).inst_map

    abbrev pub at_thread : ℕ → ℕ
    at_thread x = to_ℕ (get_inst_assigned s a x)

    -- `insertConsume` looks in the tables of `loopSplit`; the rest of `sites` is LLVM's.
    abbrev pub placed_sites : Sites
    placed_sites = record sites {
      place = λ i.
          place_of (all_new_to_old (λ j. (workers j).tables) max_thread) (workers i).tables.places
            (maps i);
    }

    -- `loopSplit` has made a function for each thread, from code that is ready for it; copies are
    -- instructions, those of different threads have different addresses, and no value that the loop
    -- takes in is an instruction of the loop.
    pub record AreMade : Type 0 where
      pub loop :
          IsLoop
            (planned base g s a part)
            insts
            (planned-IsSplit pq opcode g insts fuel s a part plan base)
            steps
            depth
            enough
      pub ready :
          (i : ℕ)
          → i < max_thread
          → IsReady
              (planned base g s a part)
              insts
              (planned-IsSplit pq opcode g insts fuel s a part plan base)
              steps
              i
              (names i)
              depth
              enough
      pub made :
          (i : ℕ)
          → i < max_thread
          → make_worker
              (planned base g s a part)
              steps
              i
              (names i)
              (thread_blocks (planned base g s a part) steps i)
            ≡ ok (workers i)
      pub copies : (i x : ℕ) → is_inst ((names i).copy x) ≡ true
      pub apart :
          (i j x y : ℕ)
          → i < max_thread
          → j < max_thread
          → (names i).copy x ≡ (names j).copy y
          → i ≡ j
      pub outside : (x : ℕ) → 0 < count x insts → count x base.livein ≡ 0

    workers-IsWorker :
        AreMade
        → (i : ℕ) → i < max_thread
        → IsWorker
            (planned base g s a part)
            insts
            (planned-IsSplit pq opcode g insts fuel s a part plan base)
            steps
            depth
            enough
            i
            (names i)
            (workers i)
    workers-IsWorker m i h =
        let l = planned base g s a part in
        elim (make_worker_lem l insts (planned-IsSplit pq opcode g insts fuel s a part plan base)
          steps depth enough i (names i) m.loop (m.ready i h)) [
            | inl (_, out) ↦ absurd (cc (out, m.made i h))
            | inr (w, eq, k) ↦
                let same : ok w ≡ ok (workers i) = sym eq ∙ m.made i h in
                let same' : w ≡ workers i = cc in
                subst
                  (IsWorker l insts (planned-IsSplit pq opcode g insts fuel s a part plan base)
                    steps depth enough i (names i))
                  same' k
          ]

    own_thread :
        (x : ℕ)
        → 0 < count x insts
        → (get_inst_assigned s a x ≡ pos (at_thread x)) × (at_thread x < max_thread)
    own_thread x c =
        let (sign, less) = (planned-IsPipeline pq opcode g insts fuel s a part plan).total x c in
        (pos-to_ℕ (get_inst_assigned s a x) sign, less)

    -- The loads do not take the place of a copy.
    loads_lem :
        AreMade
        → (i x : ℕ) → i < max_thread
        → 0 < count x insts
        → maps i x ≡ (workers i).tables.inst_map x
    loads_lem m i x less c =
        let k = workers-IsWorker m i less in
        elim (map_outs-Holds (names i).loaded 0 base.livein (workers i).tables.inst_map x) [
          | inl (j, _, h) ↦ absurd (omega (arith, Holds-count 0 base.livein j x h, m.outside x c))
          | inr (_, e) ↦ ap (λ (f : ℕ → Option ℕ). f x) k.loads ∙ e
        ]

    maps_lem :
        AreMade
        → (x : ℕ) → 0 < count x insts
        → maps (at_thread x) x ≡ some ((names (at_thread x)).copy x)
    maps_lem m x c =
        let (t, less) = own_thread x c in
        loads_lem m (at_thread x) x less c
        ∙ (workers-IsWorker m (at_thread x) less).places.own x c t

    -- `newToOld` leads from the copy of an instruction in its thread back to it.
    old_lem :
        AreMade
        → (x : ℕ) → 0 < count x insts
        → all_new_to_old (λ j. (workers j).tables) max_thread ((names (at_thread x)).copy x)
          ≡ some x
    old_lem m x c =
        let (t, less) = own_thread x c in
        all_new_to_old_lem (λ j. (workers j).tables) max_thread (at_thread x)
          ((names (at_thread x)).copy x) x less
          ((workers-IsWorker m (at_thread x) less).places.old x c t)
          (λ j h ne.
            elim (Option-cases ((workers j).tables.new_to_old ((names (at_thread x)).copy x))) [
              | inl e ↦ e
              | inr (y, e) ↦
                  let from = (workers-IsWorker m j h).places.copied_from _ y e in
                  absurd (ne (sym (m.apart (at_thread x) j x y less h from)))
            ])

    -- Let `findSCC` and `threadPartition` have planned the threads of a dependence graph whose tables are
    -- in step, and `loopSplit` made a function for each thread. Let its copies be instructions with
    -- different addresses, and no value that the loop takes in an instruction of the loop. Then every
    -- dependence whose ends are in different threads leads to a later thread, and has the copy of its
    -- source in its thread and that of its target in its own. From the copy of the source
    -- `insertConsume` finds its place in the target's thread: the copy of an instruction of the source's
    -- block. And `insertSynchronization` makes a channel between these copies, unless it ends in
    -- `error`: then there is a dependence to a later thread for which `insertProduce` or
    -- `insertConsume` does, with the next channel.
    pub crossing-IsPlaced :
        AreMade
        → (e : Edge) → Memᴰ e g.all_edges
        → at_thread e.u ≢ at_thread e.v
        → let made = insert_synchronization at_thread maps is_inst placed_sites g.all_edges in
          (nu nv y : ℕ) × (at_thread e.u < at_thread e.v)
          × IsPair at_thread maps is_inst placed_sites e (at_thread e.v) nu nv
          × (placed_sites.place (at_thread e.v) nu ≡ some ((names (at_thread e.v)).copy y))
          × (base.parent y ≡ base.parent e.u)
          × (((k : ℕ) × Memᴰ
                  (call_of at_thread maps is_inst placed_sites e (at_thread e.v) nu nv k)
                  made.calls)
              ⊎ ((made.exited ≡ true)
                  × (c : Call) × IsFrom at_thread maps is_inst placed_sites g.all_edges c
                  × (c.channel ≡ made.channel)
                  × (inserts at_thread maps is_inst placed_sites c ≡ false)))
    crossing-IsPlaced m e listed apart =
        let d = Memᴰ-Depends e plan.consistent listed in
        let (hu, hv) = plan.within e.u e.v d in
        let (t, less) = own_thread e.v hv in
        let made = insert_synchronization at_thread maps is_inst placed_sites g.all_edges in
        let synced =
          insert_synchronization-IsSynced at_thread maps is_inst placed_sites g.all_edges in
        let (nu, nv, later, pair, call) =
          crossing-IsPair g insts (get_inst_assigned s a) maps is_inst placed_sites plan.consistent
            plan.within (planned-IsPipeline pq opcode g insts fuel s a part plan)
            (λ x c. ((names (at_thread x)).copy x, maps_lem m x c, m.copies (at_thread x) x)) e
            listed apart in
        let is_copy : some ((names (at_thread e.u)).copy e.u) ≡ some nu =
          sym (maps_lem m e.u hu) ∙ pair.source in
        let is_copy' : (names (at_thread e.u)).copy e.u ≡ nu = cc in
        let all_old : ℕ → Option ℕ = all_new_to_old (λ j. (workers j).tables) max_thread in
        let old : all_old nu ≡ some e.u =
          subst (λ z. all_old z ≡ some e.u) is_copy' (old_lem m e.u hu) in
        let (y, place, block) =
          (workers-IsWorker m (at_thread e.v) less).places.place e.u e.v hv t d all_old nu old in
        (
          nu,
          nv,
          y,
          later,
          pair,
          place_of_same all_old (workers (at_thread e.v)).tables.places (maps (at_thread e.v))
                (workers (at_thread e.v)).tables.inst_map nu e.u old
                (loads_lem m (at_thread e.v) e.u less hu)
              ∙ place,
          block,
          elim (Bool-cases made.exited) [
            | inl off ↦
                let (c, from, next, fails) = synced.numbered.failed off in
                inr (off, c, from, next, fails)
            | inr on ↦ inl (call on)
          ],
        )
