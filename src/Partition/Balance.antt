-- ===== src/Partition/Balance.antt =====
-- The load balance of `threadPartition` (DSWP_3.cpp): `estLatency` against `averLatency`.
use mathlib.Core.List.{foldl, Perm, Permᴰ}
use mathlib.Core.Logic.{∥∥₁_elim}
use native.Mathlib.Nat.{ℕ_set}
use dswp_plus.Base.{
  ℕ, zero, suc, ◌≡◌, refl, sym, ◌∙◌, ap, subst, ◌+◌, ◌-◌, ◌≤◌, ◌≢◌, ◌⊎◌, true, ◌&&◌, not, List, [],
  ◌∷◌, ◌==◌, ltb, leb, if◌then◌else◌, arith, ℤ, pos, is_neg, to_ℕ, Bool-cases, inl, inr, eq-of-==,
  update, Option, none, some, List-cases,
}
use dswp_plus.Scc.{Scc}
use dswp_plus.Partition.Defs.{
  max_thread, QNode, PriorityQueue, Partition, offer, schedule, fill, seed, ready_nodes,
}
use dswp_plus.Partition.Queue.{queued, queued-perm, est-offers}
use dswp_plus.Partition.Schedule.{
  IsTable, IsSound, assigned-schedule, schedule-IsSound, top_was_free,
}

pub some_inj : {a b : Partition} → Path (Option Partition) (some a) (some b) → a ≡ b
some_inj e = cc

module _ (lat : ℕ → ℕ) where
  -- The latency of the components below `n` that are in thread `j`.
  abbrev pub load : (ℕ → ℤ) → ℕ → ℕ → ℕ
  load a j zero = 0
  load a j (suc v) = (if not (is_neg (a v)) && to_ℕ (a v) == j then lat v else 0) + load a j v

  load-update :
      (a : ℕ → ℤ) (u i j n : ℕ)
      → is_neg (a u) ≡ true
      → load (update a u (pos i)) j n ≡ load a j n + (if ltb u n && i == j then lat u else 0)
  load-update a u i j zero h = ground arith
  load-update a u i j (suc v) h = elim (Bool-cases (u == v)) [
    | inl e ↦
        let e' = eq-of-== u v e in
        ground (arith, load-update a u i j v h, e', h, ap lat e', ap (λ z. is_neg (a z)) e')
    | inr e ↦ ground (arith, load-update a u i j v h, e)
  ]

  -- Whether the entry does not have the latency of its component, and how many of the queue do not.
  abbrev bad : QNode → ℕ
  bad q = if q.latency == lat q.u then 0 else 1

  abbrev pub wrong : List QNode → ℕ
  wrong [] = 0
  wrong (q ∷ qs) = bad q + wrong qs

  wrong-permᴰ : {xs ys : List QNode} → Permᴰ xs ys → wrong xs ≡ wrong ys
  wrong-permᴰ Permᴰ.nil = refl
  wrong-permᴰ (Permᴰ.cons {a} {b} e p) = omega (arith, ap bad e, wrong-permᴰ p)
  wrong-permᴰ (Permᴰ.swap {a} {b} {a'} {b'} e e') = omega (arith, ap bad e, ap bad e')
  wrong-permᴰ (Permᴰ.trans p q) = wrong-permᴰ p ∙ wrong-permᴰ q

  wrong-perm : {xs ys : List QNode} → Perm xs ys → wrong xs ≡ wrong ys
  wrong-perm p = ∥∥₁_elim p (ℕ_set _ _) (λ d. wrong-permᴰ d)

  module _ (s : Scc) where
    wrong-offers :
        (vs : List ℕ) (p : Partition) → wrong (foldl (offer s lat) p vs).queue ≡ wrong p.queue
    unfolding offer
    wrong-offers [] p = refl
    wrong-offers (v ∷ vs) p = ground (arith, wrong-offers vs (offer s lat p v))

    pub wrong-ready_nodes :
        (n scc : ℕ) (q : List QNode) → wrong (ready_nodes s lat n scc q) ≡ wrong q
    unfolding ready_nodes seed
    wrong-ready_nodes zero scc q = refl
    wrong-ready_nodes (suc n) scc q =
        ground (arith, wrong-ready_nodes n (scc + 1) (seed s lat scc q), List-cases (s.parents scc))

  -- `estLatency` is the latency of each thread, and the queue has that of its components.
  pub record IsWeighed (n : ℕ) (p : Partition) : Type 0 where
    pub est : (j : ℕ) → p.est_latency j ≡ load p.assigned j n
    pub exact : wrong p.queue ≡ 0

  module _ (s : Scc) (table : IsTable s) (pq : PriorityQueue) (aver m : ℕ)
      (most : (v : ℕ) → lat v ≤ m) where
    module _ (i : ℕ) (p : Partition) (ok : IsSound s i p) (top : QNode) (rest : List QNode)
        (taken : (v : ℕ) → queued v p.queue ≡ (if v == top.u then 1 else 0) + queued v rest)
        (fair : bad top + wrong rest ≡ 0) where
      est-schedule :
          (j : ℕ)
          → (schedule s lat i top rest p).est_latency j
            ≡ p.est_latency j + (if i == j then lat top.u else 0)
      unfolding schedule
      est-schedule j =
          ap (λ (e : ℕ → ℕ). e j) (est-offers s lat (s.dependents top.u) _)
          ∙ ground (arith, fair, ap p.est_latency)

      schedule-IsWeighed : IsWeighed s.scc_num p → IsWeighed s.scc_num (schedule s lat i top rest p)
      unfolding schedule
      schedule-IsWeighed w =
          let was = top_was_free s lat table i p ok top rest taken in
          record {
            est = λ j. rw (assigned-schedule s lat table i p ok top rest taken) (
                ground (
                  arith,
                  est-schedule j,
                  w.est j,
                  was,
                  load-update p.assigned top.u i j s.scc_num,
                ));
            exact = wrong-offers s (s.dependents top.u) _ ∙ omega (arith, fair);
          }

    -- What the loop for thread `i` leaves, where it started with no more than the average.
    pub record IsBalanced (i : ℕ) (p t : Partition) : Type 0 where
      pub sound : IsSound s i t
      pub weighed : IsWeighed s.scc_num t
      pub others : (j : ℕ) → i ≢ j → t.est_latency j ≡ p.est_latency j
      pub bound : i ≢ max_thread - 1 → t.est_latency i ≤ aver + m
      pub why : i ≢ max_thread - 1 → (aver ≤ t.est_latency i) ⊎ (t.queue ≡ [])

    pub fill-IsBalanced :
        (f i : ℕ) (p t : Partition)
        → IsSound s i p
        → IsWeighed s.scc_num p
        → (i ≢ max_thread - 1 → p.est_latency i ≤ aver)
        → fill s lat pq aver f i p ≡ some t
        → IsBalanced i p t
    unfolding fill
    fill-IsBalanced zero i p t ok w h run = elim (List-cases p.queue) [
      | inl e ↦
          let stays : fill s lat pq aver zero i p ≡ some p = simp (e, fill) in
          let same : p ≡ t = some_inj (sym stays ∙ run) in
          subst (IsBalanced i p) same (record {
            sound = ok;
            weighed = w;
            others = λ j ne. refl;
            bound = λ ne. omega (arith, h ne);
            why = λ ne. inr e;
          })
      | inr (q, qs, e) ↦
          let ends : fill s lat pq aver zero i p ≡ none = simp (e, fill) in
          let out : none ≡ some t = sym ends ∙ run in absurd (cc)
    ]
    fill-IsBalanced (suc f) i p t ok w h run = elim (List-cases p.queue) [
      | inl e ↦
          let stays : fill s lat pq aver (suc f) i p ≡ some p = simp (e, fill) in
          let same : p ≡ t = some_inj (sym stays ∙ run) in
          subst (IsBalanced i p) same (record {
            sound = ok;
            weighed = w;
            others = λ j ne. refl;
            bound = λ ne. omega (arith, h ne);
            why = λ ne. inr e;
          })
      | inr (q, qs, e) ↦
          let top : QNode = (pq.take q qs).0 in
          let rest : List QNode = (pq.take q qs).1 in
          let taken : (v : ℕ) → queued v p.queue ≡ (if v == top.u then 1 else 0) + queued v rest =
            λ v. ap (queued v) e ∙ queued-perm v (pq.take_perm q qs) in
          let fair : bad top + wrong rest ≡ 0 =
            sym (wrong-perm (pq.take_perm q qs)) ∙ sym (ap wrong e) ∙ w.exact in
          let p' : Partition = schedule s lat i top rest p in
          let ok' = schedule-IsSound s lat table i p ok top rest taken in
          let w' = schedule-IsWeighed i p ok top rest taken fair w in
          let est = est-schedule i p ok top rest taken fair in
          elim (Bool-cases (leb aver (p'.est_latency i) && not (i == max_thread - 1))) [
            | inl stop ↦
                let ends : fill s lat pq aver (suc f) i p ≡ some p' = simp (e, fill, stop) in
                let same : p' ≡ t = some_inj (sym ends ∙ run) in
                subst (IsBalanced i p) same (record {
                  sound = ok';
                  weighed = w';
                  others = λ j ne. ground (arith, est j, ne);
                  bound = λ ne. ground (arith, est i, h ne, most top.u);
                  why = λ ne. inl (ground (arith, stop));
                })
            | inr more ↦
                let goes : fill s lat pq aver (suc f) i p ≡ fill s lat pq aver f i p' =
                  simp (e, fill, more) in
                let q =
                  fill-IsBalanced f i p' t ok' w' (λ ne. ground (arith, more, ne))
                    (sym goes ∙ run) in
                record {
                  sound = q.sound;
                  weighed = q.weighed;
                  others = λ j ne. q.others j ne ∙ ground (arith, est j, ne);
                  bound = q.bound;
                  why = q.why;
                }
          ]
    ]
