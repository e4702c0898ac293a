-- ===== src/Partition/Total.antt =====
-- `threadPartition` (DSWP_3.cpp) from its start to its end.
use dswp_plus.Base.{
  ℕ, zero, suc, ◌≡◌, refl, ◌∙◌, ap, ◌+◌, ◌-◌, ◌/◌, ◌≤◌, ◌<◌, ◌≢◌, true, false, ◌&&◌, not, List, [],
  ◌++◌, ◌∷◌, ◌==◌, ltb, leb, if◌then◌else◌, count, count-snoc, length, arith, ℤ, is_neg, to_ℕ,
  Bool-cases, inl, inr, eq-of-==, update, ◌⊎◌, some, List-cases,
}
use dswp_plus.Search.{unseen}
use dswp_plus.Search.Marks.{unseen-lt, unseen-le}
use dswp_plus.Scc.{Scc}
use dswp_plus.Partition.Latency.{Opcode}
use dswp_plus.Partition.Defs.{
  max_thread, QNode, PriorityQueue, Partition, schedule, fill, fill_threads, done, fill_parts,
  finish, thread_partition, first_partition, latencies, Latencies,
}
use dswp_plus.Partition.Queue.{queued, queued-perm, can_sched-of, queued-ready_nodes}
use dswp_plus.Partition.Schedule.{
  IsTable, IsSound, IsSound-later, assigned-schedule, schedule-IsSound, top_was_free,
}

abbrev below : ℕ → List ℕ
below zero = []
below (suc n) = n ∷ below n

count-below : (v n : ℕ) → count v (below n) ≡ (if ltb v n then 1 else 0)
count-below v zero = ground arith
count-below v (suc n) = ground (arith, count-below v n)

length-below : (n : ℕ) → length (below n) ≡ n
length-below zero = refl
length-below (suc n) = ap suc (length-below n)

module _ (s : Scc) (table : IsTable s) where
  -- The components that are still without a thread.
  abbrev pub free : Partition → ℕ
  free p = unseen (λ v. not (is_neg (p.assigned v))) (below s.scc_num)

  module _ (lat : ℕ → ℕ) (i : ℕ) (p : Partition) (ok : IsSound s i p) (top : QNode)
      (rest : List QNode)
      (taken : (v : ℕ) → queued v p.queue ≡ (if v == top.u then 1 else 0) + queued v rest) where
    free-schedule : free (schedule s lat i top rest p) < free p
    free-schedule =
        let was = top_was_free s lat table i p ok top rest taken in
        unseen-lt (λ v. not (is_neg (p.assigned v)))
          (λ v. not (is_neg ((schedule s lat i top rest p).assigned v))) (below s.scc_num) top.u
          (λ x h. rw (assigned-schedule s lat table i p ok top rest taken) (ground arith))
          (ground (arith, was, count-below top.u s.scc_num)) (ground (arith, was))
          (rw (assigned-schedule s lat table i p ok top rest taken) (ground arith))

  -- Why the `while` loop for thread `i` stops.
  abbrev pub Stop : ℕ → ℕ → Partition → Type 0
  Stop aver i t = (t.queue ≡ []) ⊎ (aver ≤ t.est_latency i) × (i ≢ max_thread - 1)

  module _ (lat : ℕ → ℕ) (pq : PriorityQueue) (aver : ℕ) where
    taken_out :
        (v : ℕ) (q : QNode) (qs : List QNode) (p : Partition)
        → p.queue ≡ q ∷ qs
        → queued v p.queue ≡ (if v == (pq.take q qs).0.u then 1 else 0) + queued v (pq.take q qs).1
    taken_out v q qs p e = ap (queued v) e ∙ queued-perm v (pq.take_perm q qs)

    pub fill_total :
        (f i : ℕ) (p : Partition)
        → IsSound s i p
        → free p ≤ f
        → (t : Partition) × (fill s lat pq aver f i p ≡ some t)
          × IsSound s i t
          × Stop aver i t
          × (free t ≤ free p)
    unfolding fill
    fill_total zero i p ok h = elim (List-cases p.queue) [
      | inl e ↦ (p, simp (e, fill), ok, inl e, omega arith)
      | inr (q, qs, e) ↦ absurd (
          omega (
            arith,
            free-schedule lat i p ok (pq.take q qs).0 (pq.take q qs).1 (λ v. taken_out v q qs p e),
          ))
    ]
    fill_total (suc f) i p ok h = elim (List-cases p.queue) [
      | inl e ↦ (p, simp (e, fill), ok, inl e, omega arith)
      | inr (q, qs, e) ↦
          let top = (pq.take q qs).0 in
          let rest = (pq.take q qs).1 in
          let taken = λ (v : ℕ). taken_out v q qs p e in
          let p' = schedule s lat i top rest p in
          let ok' = schedule-IsSound s lat table i p ok top rest taken in
          let less = free-schedule lat i p ok top rest taken in
          elim (Bool-cases (leb aver (p'.est_latency i) && not (i == max_thread - 1))) [
            | inl stop ↦
                (p', simp (e, fill, stop), ok', inr (ground arith, ground arith), omega arith)
            | inr more ↦
                let (t, eq, ok'', why, le) = fill_total f i p' ok' (omega arith) in
                (t, simp (e, fill, more) eq, ok'', why, omega arith)
          ]
    ]

    -- After the last thread the queue is empty.
    pub fill_threads_total :
        (f : ℕ) (p : Partition)
        → IsSound s 0 p
        → free p ≤ f
        → (t : Partition) × (fill_threads s lat pq aver f max_thread 0 p ≡ some t)
          × IsSound s 1 t
          × (t.queue ≡ [])
    unfolding fill_threads
    fill_threads_total f p ok h =
        let (t, eq, ok', why, le) = fill_total f 0 p ok h in
        let (u, eq', ok'', why', le') = fill_total f 1 t (IsSound-later s ok') (omega arith) in
        (u, rw (eq, eq'), ok'', ground arith)

  -- With an empty queue no component is left, since a component's parents have smaller numbers.
  all_assigned :
      {i : ℕ} {t : Partition}
      → IsSound s i t
      → t.queue ≡ []
      → (k v : ℕ) → v < k
      → v < s.scc_num
      → is_neg (t.assigned v) ≡ false
  all_assigned ok e zero v h c = absurd (omega arith)
  all_assigned {t = t} ok e (suc k) v h c = elim (Bool-cases (is_neg (t.assigned v))) [
    | inr n ↦ n
    | inl n ↦
        let parents = can_sched-of t.assigned (s.parents v) (λ p d.
          let up : (p < v) × (v < s.scc_num) = table.upward p v (ground (arith, table.pars p v)) in
          all_assigned ok e k p (omega arith) (omega arith)) in
        ground (arith, ok.ready v, ap (queued v) e, ok.minus_two v n, parents)
  ]

-- What `threadPartition` promises of `assigned` and `part`.
pub record IsPartition (s : Scc) (a : ℕ → ℤ) (part : ℕ → List ℕ) : Type 0 where
  pub total : (v : ℕ) → v < s.scc_num → (is_neg (a v) ≡ false) × (to_ℕ (a v) < max_thread)
  pub forward : (u v : ℕ) → s.dag_added u v ≡ true → to_ℕ (a u) ≤ to_ℕ (a v)
  pub parts : (t v : ℕ) → count v (part t) ≡ (if ltb v s.scc_num && to_ℕ (a v) == t then 1 else 0)

fill_parts_total :
    (a : ℕ → ℤ) (n i : ℕ) (part : ℕ → List ℕ)
    → ((v : ℕ) → i ≤ v → v < i + n → (is_neg (a v) ≡ false) × (to_ℕ (a v) < max_thread))
    → (part' : ℕ → List ℕ) × (fill_parts a n i part ≡ done a part')
      × ((t v : ℕ)
          → count v (part' t)
            ≡ count v (part t) + (if leb i v && ltb v (i + n) && to_ℕ (a v) == t then 1 else 0))
unfolding fill_parts
fill_parts_total a zero i part h = (part, refl, λ t v. ground arith)
fill_parts_total a (suc n) i part h =
    let t = to_ℕ (a i) in
    let (part', eq, counts) =
      fill_parts_total a n (i + 1) (update part t (part t ++ (i ∷ [])))
        (λ v lo hi. h v (omega arith) (omega arith)) in
    let here = h i (omega arith) (omega arith) in
    (
      part',
      ground (arith, here, eq),
      λ t' v. elim (Bool-cases (i == v)) [
        | inl e ↦
            let e' = eq-of-== i v e in
            ground (arith, e', ap (λ x. to_ℕ (a x)) e', counts t' v, count-snoc v i (part t))
        | inr e ↦ ground (arith, counts t' v, count-snoc v i (part t))
      ],
    )

module _ (pq : PriorityQueue) (opcode : ℕ → Opcode) (insts : List ℕ) (s : Scc) where
  pub first_partition-IsSound : (l : Latencies) → IsSound s 0 (first_partition pq opcode insts s l)
  unfolding first_partition
  first_partition-IsSound l = record {
    ready = λ v. ground (arith, queued-ready_nodes s l.scc_latency s.scc_num 0 v []);
    minus_two = λ v h. refl;
    thread_le = λ v. omega arith;
    inside = λ v h. absurd (cc);
    forward = λ u v d h. absurd (cc);
  }

  -- With fuel for the number of components `threadPartition` returns: each component has one of
  -- the threads, none is in an earlier thread than a component that it depends on, and `part`
  -- lists for each thread exactly its components, once.
  pub thread_partition-IsPartition :
      IsTable s
      → (fuel : ℕ) → s.scc_num ≤ fuel
      → (a : ℕ → ℤ) × (part : ℕ → List ℕ) × (thread_partition pq opcode insts s fuel ≡ done a part)
        × IsPartition s a part
  unfolding thread_partition finish
  thread_partition-IsPartition table fuel h =
      let l = latencies opcode s insts in
      let p = first_partition pq opcode insts s l in
      let (t, eq, ok, empty) =
        fill_threads_total s table l.scc_latency pq (l.total_latency / max_thread) fuel p
          (first_partition-IsSound l)
          (omega (
            arith,
            unseen-le (λ v. not (is_neg (p.assigned v))) (below s.scc_num),
            length-below s.scc_num,
          )) in
      let total =
        λ (v : ℕ) (c : v < s.scc_num). all_assigned s table ok empty (suc v) v (omega arith) c in
      let (part, eq', counts) =
        fill_parts_total t.assigned s.scc_num 0 (λ _. [])
          (λ v lo hi. (total v (omega arith), omega (arith, ok.thread_le v))) in
      (
        t.assigned,
        part,
        ap (finish s.scc_num) eq ∙ eq',
        record {
          total = λ v c. (total v c, omega (arith, ok.thread_le v));
          forward = λ u v d. let up = table.upward u v d in (ok.forward u v d (total v up.1)).1;
          parts = λ k v. ground (arith, counts k v);
        },
      )
