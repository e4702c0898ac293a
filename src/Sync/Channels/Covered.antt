-- ===== src/Sync/Channels/Covered.antt =====
-- `insertSynchronization` (DSWP_5.cpp) over all the edges.
use mathlib.Core.List.{foldl, Memᴰ}
use mathlib.Core.List.Memᴰ
use dswp_plus.Base.{
  ℕ, ◌≡◌, refl, sym, subst, ◌+◌, ◌-◌, ◌≤◌, ◌<◌, Bool, false, Option, List, [], ◌∷◌, length, inl,
  inr, arith, ltb, Bool-cases,
}
use dswp_plus.Pdg.{Edge}
use dswp_plus.Partition.{max_thread}
use dswp_plus.Sync.Channels.{Sites, Sync, no_sync, sync_threads, sync_edge, insert_synchronization}
use dswp_plus.Sync.Channels.Laws.{IsPair, call_of, IsNumbered, Grows}
use dswp_plus.Sync.Channels.Threads.{
  sync_threads-Grows, sync_threads-IsNumbered, sync_threads-complete,
}

module _ (thread : ℕ → ℕ) (inst_map : ℕ → ℕ → Option ℕ) (is_inst : ℕ → Bool) (sites : Sites) where
  edge-IsNumbered :
      (all : List Edge) (s : Sync) (e : Edge)
      → Memᴰ e all
      → IsNumbered thread inst_map is_inst sites all s
      → IsNumbered thread inst_map is_inst sites all (sync_edge thread inst_map is_inst sites s e)
  unfolding sync_edge sync_threads
  edge-IsNumbered all s e m i = elim (Bool-cases (ltb (thread e.u) 1)) [
    | inl h ↦
        sync_threads-IsNumbered thread inst_map is_inst sites all e (max_thread - (thread e.u + 1))
          (thread e.u + 1) s m (omega arith) (ground arith) i
    | inr h ↦ let none_left : max_thread - (thread e.u + 1) ≡ 0 = ground arith in rw none_left i
  ]

  edges-IsNumbered :
      (all edges : List Edge) (s : Sync)
      → ((e : Edge) → Memᴰ e edges → Memᴰ e all)
      → IsNumbered thread inst_map is_inst sites all s
      → IsNumbered thread inst_map is_inst sites all
          (foldl (sync_edge thread inst_map is_inst sites) s edges)
  edges-IsNumbered all [] s sub i = i
  edges-IsNumbered all (e ∷ edges) s sub i =
      edges-IsNumbered all edges (sync_edge thread inst_map is_inst sites s e)
        (λ x m. sub x (Memᴰ.tail m)) (edge-IsNumbered all s e (sub e (Memᴰ.head refl)) i)

  edges-Grows :
      (edges : List Edge) (s : Sync)
      → Grows (length edges) s (foldl (sync_edge thread inst_map is_inst sites) s edges)
  unfolding sync_edge
  edges-Grows [] s = record { kept = λ c m. m; few = omega arith; going = λ on. on }
  edges-Grows (e ∷ edges) s =
      let n = max_thread - (thread e.u + 1) in
      let a = sync_threads-Grows thread inst_map is_inst sites e n (thread e.u + 1) s in
      let b = edges-Grows edges (sync_edge thread inst_map is_inst sites s e) in
      record {
        kept = λ c m. b.kept c (a.kept c m);
        few = omega (arith, a.few, b.few);
        going = λ on. a.going (b.going on);
      }

  edges-complete :
      (edges : List Edge) (s : Sync) (e : Edge) (t nu nv : ℕ)
      → Memᴰ e edges
      → thread e.u < t
      → t < max_thread
      → IsPair thread inst_map is_inst sites e t nu nv
      → (foldl (sync_edge thread inst_map is_inst sites) s edges).exited ≡ false
      → (k : ℕ) × Memᴰ
          (call_of thread inst_map is_inst sites e t nu nv k)
          (foldl (sync_edge thread inst_map is_inst sites) s edges).calls
  unfolding sync_edge
  edges-complete [] s e t nu nv m h h' p on = absurd (Memᴰ.not-nil m)
  edges-complete (x ∷ edges) s e t nu nv m h h' p on =
      let next = sync_edge thread inst_map is_inst sites s x in
      elim (Memᴰ.cases_cons m) [
        | inl same ↦
            let here_on : (sync_edge thread inst_map is_inst sites s e).exited ≡ false =
              subst (λ y. (sync_edge thread inst_map is_inst sites s y).exited ≡ false) (sym same)
                ((edges-Grows edges next).going on) in
            let (k, here) =
              sync_threads-complete thread inst_map is_inst sites e (max_thread - (thread e.u + 1))
                (thread e.u + 1) t nu nv s (omega arith) (omega arith) p here_on in
            let here' =
              subst
                (λ y.
                  Memᴰ (call_of thread inst_map is_inst sites e t nu nv k)
                    (sync_edge thread inst_map is_inst sites s y).calls)
                same here in
            (k, (edges-Grows edges next).kept _ here')
        | inr n ↦ edges-complete edges next e t nu nv n h h' p on
      ]

  -- What `insertSynchronization` has done for the edges. `few` counts: with two threads an edge has
  -- one channel at most.
  pub record IsSynced (edges : List Edge) (s : Sync) : Type 0 where
    pub numbered : IsNumbered thread inst_map is_inst sites edges s
    pub few : s.channel ≤ length edges
    pub complete :
        s.exited ≡ false
        → (e : Edge) (t nu nv : ℕ) → Memᴰ e edges
        → thread e.u < t
        → t < max_thread
        → IsPair thread inst_map is_inst sites e t nu nv
        → (k : ℕ) × Memᴰ (call_of thread inst_map is_inst sites e t nu nv k) s.calls

  -- `insertSynchronization` numbers the channels from 0 on in the order of its calls, and needs no
  -- more channels than there are edges. Each call has its edge: a dependence whose ends are
  -- instructions, the source in its own thread and the target in a later thread below `MAX_THREAD`;
  -- and `insertProduce` and `insertConsume` return for it. Unless it ends in `error`, every edge and
  -- every later thread with such ends has a call. If it does, then `insertProduce` or `insertConsume`
  -- has failed for such an edge and thread, with the channel behind those of all the calls before.
  pub insert_synchronization-IsSynced :
      (edges : List Edge)
      → IsSynced edges (insert_synchronization thread inst_map is_inst sites edges)
  unfolding insert_synchronization
  insert_synchronization-IsSynced edges = record {
    numbered =
        edges-IsNumbered edges edges no_sync (λ e m. m)
          (record {
            numbers = refl;
            sound = λ c m. absurd (Memᴰ.not-nil m);
            failed = λ off. absurd (cc off);
          });
    few = omega (arith, (edges-Grows edges no_sync).few);
    complete = λ on e t nu nv m h h' p. edges-complete edges no_sync e t nu nv m h h' p on;
  }
