-- ===== src/Partition/Fair.antt =====
-- How `threadPartition` (DSWP_3.cpp) shares the latency of the loop between the threads.
use dswp_plus.Base.{
  ℕ, zero, suc, ◌≡◌, refl, sym, ◌∙◌, ap, subst, ◌+◌, ◌/◌, ◌≤◌, ◌⊎◌, ◌||◌, List, [], ◌∷◌, ◌++◌, leb,
  arith, ℤ, is_neg, to_ℕ, Bool-cases, inl, inr, update, none, some, Option-cases,
}
use dswp_plus.Scc.{Scc}
use dswp_plus.Partition.Latency.{Opcode}
use dswp_plus.Partition.Defs.{
  max_thread, PriorityQueue, Partition, unassigned, fill, fill_threads, done, bad_scc, out_of_fuel,
  fill_parts, finish, thread_partition, first_partition, latencies, Latencies,
}
use dswp_plus.Partition.Schedule.{IsTable, IsSound-later}
use dswp_plus.Partition.Total.{IsPartition, first_partition-IsSound, thread_partition-IsPartition}
use dswp_plus.Partition.Balance.{
  load, wrong-ready_nodes, IsWeighed, IsBalanced, fill-IsBalanced, some_inj,
}

fill_parts-done :
    (a b : ℕ → ℤ) (n i : ℕ) (part part' : ℕ → List ℕ) → fill_parts a n i part ≡ done b part' → a ≡ b
unfolding fill_parts
fill_parts-done a b zero i part part' h = cc
fill_parts-done a b (suc n) i part part' h =
    elim (Bool-cases (is_neg (a i) || leb max_thread (to_ℕ (a i)))) [
      | inl e ↦ let out : bad_scc i ≡ done b part' = rw e at h in absurd (cc)
      | inr e ↦
          fill_parts-done a b n (i + 1) (update part (to_ℕ (a i)) (part (to_ℕ (a i)) ++ (i ∷ [])))
            part' (rw e at h)
    ]

load-unassigned : (lat : ℕ → ℕ) (j n : ℕ) → load lat (λ _. unassigned) j n ≡ 0
load-unassigned lat j zero = refl
load-unassigned lat j (suc n) = omega (arith, load-unassigned lat j n)

fill-empty :
    (s : Scc) (lat : ℕ → ℕ) (pq : PriorityQueue) (aver f i : ℕ) (p : Partition)
    → p.queue ≡ []
    → fill s lat pq aver f i p ≡ some p
unfolding fill
fill-empty s lat pq aver zero i p e = simp (e, fill)
fill-empty s lat pq aver (suc f) i p e = simp (e, fill)

module _ (pq : PriorityQueue) (opcode : ℕ → Opcode) (insts : List ℕ) (s : Scc) (m : ℕ)
    (table : IsTable s) (most : (v : ℕ) → (latencies opcode s insts).scc_latency v ≤ m) where
  first_partition-IsWeighed :
      let l = latencies opcode s insts in
      IsWeighed l.scc_latency s.scc_num (first_partition pq opcode insts s l)
  unfolding first_partition
  first_partition-IsWeighed =
      let l = latencies opcode s insts in
      record {
        est = λ j. sym (load-unassigned l.scc_latency j s.scc_num);
        exact = wrong-ready_nodes l.scc_latency s s.scc_num 0 [];
      }

  first_est :
      (j : ℕ) → (first_partition pq opcode insts s (latencies opcode s insts)).est_latency j ≡ 0
  unfolding first_partition
  first_est j = refl

  -- The latencies that the two threads get.
  shares :
      (f : ℕ) (u : Partition)
      → let l = latencies opcode s insts in
        let aver = l.total_latency / max_thread in
        fill_threads s l.scc_latency pq aver f max_thread 0 (first_partition pq opcode insts s l)
          ≡ some u
        → (load l.scc_latency u.assigned 0 s.scc_num ≤ aver + m)
          × ((aver ≤ load l.scc_latency u.assigned 0 s.scc_num)
              ⊎ (load l.scc_latency u.assigned 1 s.scc_num ≡ 0))
  unfolding fill_threads
  shares f u run =
      let l : Latencies = latencies opcode s insts in
      let aver : ℕ = l.total_latency / max_thread in
      let p : Partition = first_partition pq opcode insts s l in
      elim (Option-cases (fill s l.scc_latency pq aver f 0 p)) [
        | inl e ↦ let out : none ≡ some u = rw e at run in absurd (cc)
        | inr (t, e) ↦ elim (Option-cases (fill s l.scc_latency pq aver f 1 t)) [
          | inl e' ↦ let out : none ≡ some u = rw (e, e') at run in absurd (cc)
          | inr (t', e') ↦
              let out : some t' ≡ some u = rw (e, e') at run in
              let same : t' ≡ u = some_inj out in
              let b0 : IsBalanced l.scc_latency s table pq aver m most 0 p t =
                fill-IsBalanced l.scc_latency s table pq aver m most f 0 p t
                  (first_partition-IsSound pq opcode insts s l) first_partition-IsWeighed
                  (λ ne. omega (arith, first_est 0)) e in
              let b1 : IsBalanced l.scc_latency s table pq aver m most 1 t t' =
                fill-IsBalanced l.scc_latency s table pq aver m most f 1 t t'
                  (IsSound-later s b0.sound) b0.weighed (λ ne. absurd (ne refl)) e' in
              subst
                (λ (z : Partition).
                  (load l.scc_latency z.assigned 0 s.scc_num ≤ aver + m)
                  × ((aver ≤ load l.scc_latency z.assigned 0 s.scc_num)
                      ⊎ (load l.scc_latency z.assigned 1 s.scc_num ≡ 0)))
                same
                (
                  omega (
                    arith,
                    b1.weighed.est 0,
                    b1.others 0 (λ q. omega (arith, q)),
                    b0.bound (λ q. omega (arith, q)),
                  ),
                  elim (b0.why (λ q. omega (arith, q))) [
                    | inl full ↦
                        inl (
                          omega
                            (arith, b1.weighed.est 0, b1.others 0 (λ q. omega (arith, q)), full))
                    | inr empty ↦
                        let stays = fill-empty s l.scc_latency pq aver f 1 t empty in
                        let at : t ≡ t' = some_inj (sym stays ∙ e') in
                        let est : t.est_latency 1 ≡ t'.est_latency 1 =
                          ap (λ (z : Partition). z.est_latency 1) at in
                        inr (
                          omega (
                            arith,
                            b1.weighed.est 1,
                            est,
                            b0.others 1 (λ q. omega (arith, q)),
                            first_est 1,
                          ))
                  ],
                )
        ]
      ]

  -- With fuel for the number of components `threadPartition` returns: each component has one of the
  -- threads, none is in an earlier thread than a component that it depends on, and `part` lists for each
  -- thread exactly its components, once. If no component has a latency of more than `m`, then the first of
  -- the two threads gets no more than the average latency and `m`. It gets at least the average, or else
  -- the second thread gets no latency at all.
  pub thread_partition-shares :
      (fuel : ℕ)
      → s.scc_num ≤ fuel
      → let l = latencies opcode s insts in
        let aver = l.total_latency / max_thread in
        (a : ℕ → ℤ) × (part : ℕ → List ℕ) × (thread_partition pq opcode insts s fuel ≡ done a part)
        × IsPartition s a part
        × (load l.scc_latency a 0 s.scc_num ≤ aver + m)
        × ((aver ≤ load l.scc_latency a 0 s.scc_num) ⊎ (load l.scc_latency a 1 s.scc_num ≡ 0))
  unfolding thread_partition finish
  thread_partition-shares fuel h =
      let l : Latencies = latencies opcode s insts in
      let aver : ℕ = l.total_latency / max_thread in
      let (a, part, eq, q) = thread_partition-IsPartition pq opcode insts s table fuel h in
      elim (Option-cases (
        fill_threads s l.scc_latency pq aver fuel max_thread 0
          (first_partition pq opcode insts s l))) [
            | inl e ↦ let out : out_of_fuel ≡ done a part = rw e at eq in absurd (cc)
            | inr (u, e) ↦
                let run : fill_parts u.assigned s.scc_num 0 (λ _. []) ≡ done a part =
                  sym (ap (finish s.scc_num) e) ∙ eq in
                let same = fill_parts-done u.assigned a s.scc_num 0 (λ _. []) part run in
                let (hi, lo) = shares fuel u e in
                (
                  a,
                  part,
                  eq,
                  q,
                  subst (λ z. load l.scc_latency z 0 s.scc_num ≤ aver + m) same hi,
                  subst
                      (λ z.
                        (aver ≤ load l.scc_latency z 0 s.scc_num)
                        ⊎ (load l.scc_latency z 1 s.scc_num ≡ 0))
                      same lo,
                )
          ]
