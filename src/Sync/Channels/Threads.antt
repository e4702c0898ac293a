-- ===== src/Sync/Channels/Threads.antt =====
-- The inner loop of `insertSynchronization` (DSWP_5.cpp), over the threads behind the source's.
use mathlib.Core.List.{Memᴰ}
use mathlib.Core.List.Memᴰ
use dswp_plus.Base.{
  ℕ, zero, suc, ◌≡◌, refl, sym, ap, subst, ◌+◌, ◌≤◌, ◌<◌, Bool, true, false, Option, List, inl, inr,
  arith, Bool-cases, ◌==◌, eq-of-==, ne-of-==,
}
use dswp_plus.Pdg.{Edge}
use dswp_plus.Partition.{max_thread}
use dswp_plus.Sync.Channels.{Sites, Sync, sync_pair, sync_threads}
use dswp_plus.Sync.Channels.Laws.{
  Grows, IsPair, call_of, IsNumbered, IsInserted, sync_pair-IsPair, sync_pair-IsNumbered,
  sync_pair-Grows,
}

module _ (thread : ℕ → ℕ) (inst_map : ℕ → ℕ → Option ℕ) (is_inst : ℕ → Bool) (sites : Sites) where
  pub sync_threads-Grows :
      (e : Edge) (n vtr : ℕ) (s : Sync)
      → Grows n s (sync_threads thread inst_map is_inst sites e n vtr s)
  unfolding sync_threads
  sync_threads-Grows e zero vtr s = record { kept = λ c m. m; few = omega arith; going = λ on. on }
  sync_threads-Grows e (suc n) vtr s =
      let a = sync_pair-Grows thread inst_map is_inst sites e vtr s in
      let b = sync_threads-Grows e n (vtr + 1) (sync_pair thread inst_map is_inst sites e vtr s) in
      record {
        kept = λ c m. b.kept c (a.kept c m);
        few = omega (arith, a.few, b.few);
        going = λ on. a.going (b.going on);
      }

  pub sync_threads-IsNumbered :
      (edges : List Edge) (e : Edge) (n vtr : ℕ) (s : Sync)
      → Memᴰ e edges
      → thread e.u < vtr
      → vtr + n ≤ max_thread
      → IsNumbered thread inst_map is_inst sites edges s
      → IsNumbered thread inst_map is_inst sites edges
          (sync_threads thread inst_map is_inst sites e n vtr s)
  unfolding sync_threads
  sync_threads-IsNumbered edges e zero vtr s m h h' i = i
  sync_threads-IsNumbered edges e (suc n) vtr s m h h' i =
      sync_threads-IsNumbered edges e n (vtr + 1) (sync_pair thread inst_map is_inst sites e vtr s)
        m (omega arith) (omega arith)
        (sync_pair-IsNumbered thread inst_map is_inst sites edges e vtr s m h (omega arith) i)

  pub sync_threads-complete :
      (e : Edge) (n vtr t nu nv : ℕ) (s : Sync)
      → vtr ≤ t
      → t < vtr + n
      → IsPair thread inst_map is_inst sites e t nu nv
      → (sync_threads thread inst_map is_inst sites e n vtr s).exited ≡ false
      → (k : ℕ) × Memᴰ
          (call_of thread inst_map is_inst sites e t nu nv k)
          (sync_threads thread inst_map is_inst sites e n vtr s).calls
  unfolding sync_threads
  sync_threads-complete e zero vtr t nu nv s h h' p on = absurd (omega arith)
  sync_threads-complete e (suc n) vtr t nu nv s h h' p on =
      let next = sync_pair thread inst_map is_inst sites e vtr s in
      elim (Bool-cases (vtr == t)) [
        | inl same ↦
            let grown = sync_threads-Grows e n (vtr + 1) next in
            let e' = eq-of-== vtr t same in
            let done : IsInserted thread inst_map is_inst sites e t nu nv s next =
              subst
                (λ k.
                  IsInserted thread inst_map is_inst sites e t nu nv s
                    (sync_pair thread inst_map is_inst sites e k s))
                (sym e')
                (sync_pair-IsPair thread inst_map is_inst sites e t nu nv s
                  ((sync_pair-Grows thread inst_map is_inst sites e vtr s).going (grown.going on))
                  p) in
            elim done [
              | inl (fits, here) ↦
                  let m : Memᴰ (call_of thread inst_map is_inst sites e t nu nv s.channel)
                      next.calls =
                    subst
                      (λ (q : Sync).
                        Memᴰ (call_of thread inst_map is_inst sites e t nu nv s.channel) q.calls)
                      (sym here) (Memᴰ.append_right s.calls (Memᴰ.head refl)) in
                  (s.channel, grown.kept _ m)
              | inr (fails, here) ↦
                  let off : next.exited ≡ true = ap (λ (q : Sync). q.exited) here in
                  absurd (cc (off, grown.going on))
            ]
        | inr other ↦
            sync_threads-complete e n (vtr + 1) t nu nv next (ground (arith, ne-of-== vtr t other))
              (omega arith) p on
      ]
