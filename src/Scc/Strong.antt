-- ===== src/Scc/Strong.antt =====
-- The components of `findSCC` (DSWP_2.cpp) are those of the graph: the second pass.
use mathlib.Core.List.{reverse}
use dswp_plus.Base.{
  ℕ, ◌≡◌, ◌↔◌, sym, subst, ◌∙◌, true, false, some, List, [], ◌∷◌, ◌==◌, count, count-reverse,
  length, arith, ◌≤◌, ◌<◌, inl, inr, Bool-cases, eq-of-==,
}
use dswp_plus.Pdg.{Pdg, targets}
use dswp_plus.Pdg.Tables.{IsConsistent}
use dswp_plus.Search.{Run, done, old, new}
use dswp_plus.Search.Marks.{Run-seen, Run-inside, unseen-le}
use dswp_plus.Search.Total.{IsClosed, depth_first_total}
use dswp_plus.Scc.Defs.{
  Scc, no_scc, backward, dfs_reverse, new_scc, end_scc, backward_all, find_scc,
}
use dswp_plus.Scc.Graph.{Depends, pdg-of-rev}
use dswp_plus.Scc.Reach.{Reach, Reach-trans, Way, Way-Reach, Way-snoc}
use dswp_plus.Scc.Finish.{IsFinished}
use dswp_plus.Scc.Forward.{forward_all_total}
use dswp_plus.Scc.Backward.{backward-IsWalk, Grown-call, Run-Grown, used-link}
use dswp_plus.Scc.Settled.{Settled, root-Settled}
use dswp_plus.Scc.Order.{IsWithin, start, start-Settled, listed, backward_all_total}
use dswp_plus.Scc.Cycles.{find_scc-cycle}

module _ (g : Pdg) (ok : IsConsistent g) where
  -- From what a run of the second pass marks there is a path to its root by instructions of `l`, if
  -- all that it marks stands in `l`.
  Run-Way :
      (l : List ℕ) {v : ℕ} {ns : List ℕ} {s t : Scc}
      → Run (backward g) v ns s t
      → ((n : ℕ) → 0 < count n ns → Depends g n v)
      → ((x : ℕ) → s.used x ≡ false → t.used x ≡ true → 0 < count x l)
      → (x : ℕ) → s.used x ≡ false
      → t.used x ≡ true
      → Way g l v x
  Run-Way l done d i x a b = absurd (cc)
  Run-Way l (old {v} {n} {ns} {s} e r) d i x a b =
      Run-Way l r (λ m c. d m (omega arith)) (λ y p q. i y (rw (← used-link n s) p) q) x
        (rw used-link a) b
  Run-Way l (new {v} {n} {ns} {s} {t} {u} e r r') d i x a b =
      let later = λ (y : ℕ) (q : t.used y ≡ true). Run-seen (backward-IsWalk g) r' y q in
      elim (Bool-cases (t.used x)) [
        | inr q ↦
            Run-Way l r' (λ m c. d m (omega arith))
              (λ y p k. i y (ground (arith, p, Run-seen (backward-IsWalk g) r y)) k) x q b
        | inl q ↦
            let in_l : 0 < count n l =
              i n e (later n (Run-seen (backward-IsWalk g) r n (ground arith))) in
            let edge = d n (ground arith) in
            elim (Bool-cases (n == x)) [
              | inl same ↦ subst (Way g l v) (eq-of-== n x same) (Way.by in_l edge Way.end)
              | inr other ↦
                  Way-snoc
                    (Run-Way l r (λ m c. pdg-of-rev m n ok c)
                      (λ y p k. i y (ground (arith, p)) (later y k)) x (ground arith) q)
                    in_l edge
            ]
      ]

  -- Instructions that share a component reach one another, among those that the pass has been at.
  abbrev IsStrong : Scc → Type 0
  IsStrong s = (a b : ℕ) → s.used a ≡ true → s.used b ≡ true → s.scc_id a ≡ s.scc_id b → Reach g a b

  module _ (r : ℕ) (l : List ℕ) (s t : Scc) (settled : Settled g s) (e : s.used r ≡ false)
      (run : Run (backward g) r (targets (g.rev r)) ((backward g).enter r (new_scc s)) t)
      (fresh : (x : ℕ) → s.used x ≡ false → t.used x ≡ true → 0 < count x (r ∷ l)) where
    root-Way : (x : ℕ) → s.used x ≡ false → t.used x ≡ true → Way g l r x
    root-Way x p q = elim (Bool-cases (r == x)) [
      | inl here ↦ subst (Way g l r) (eq-of-== r x here) Way.end
      | inr there ↦
          Run-Way l run (λ n c. pdg-of-rev n r ok c) (λ y p' q'. ground (arith, fresh y, p', q')) x
            (ground arith) q
    ]

    root-IsStrong :
        ((x : ℕ) → Way g l r x → Reach g r x)
        → IsStrong s
        → IsStrong (end_scc ((backward g).leave r t))
    root-IsStrong finished strong a b ha hb same =
        let call = Grown-call g r (new_scc s) t e (Run-Grown g run) in
        elim (Bool-cases (s.used a)) [
          | inl pa ↦ elim (Bool-cases (s.used b)) [
            | inl pb ↦ strong a b pa pb (sym (call.kept a pa) ∙ same ∙ call.kept b pb)
            | inr pb ↦
                absurd (omega (arith, call.kept a pa, settled.ids a pa, call.fresh b pb hb, same))
          ]
          | inr pa ↦ elim (Bool-cases (s.used b)) [
            | inl pb ↦
                absurd (omega (arith, call.kept b pb, settled.ids b pb, call.fresh a pa ha, same))
            | inr pb ↦ Reach-trans (Way-Reach (root-Way a pa ha)) (finished b (root-Way b pb hb))
          ]
        ]

  module _ (insts : List ℕ) (closed : IsClosed (backward-IsWalk g) insts) (f : ℕ)
      (enough : length insts ≤ f) where
    backward_all-IsStrong :
        (xs : List ℕ) (s t : Scc)
        → Settled g s
        → IsStrong s
        → IsFinished g xs
        → ((x : ℕ) → 0 < count x xs → 0 < count x insts)
        → ((x : ℕ) → 0 < count x insts → s.used x ≡ false → 0 < count x xs)
        → backward_all g f xs s ≡ some t
        → IsStrong t
    unfolding backward_all dfs_reverse
    backward_all-IsStrong [] s t settled strong fin i rest eq =
        let same : s ≡ t = cc eq in subst (λ (k : Scc). IsStrong k) same strong
    backward_all-IsStrong (x ∷ xs) s t settled strong fin i rest eq = elim (Bool-cases (s.used x)) [
      | inl e ↦
          backward_all-IsStrong xs s t settled strong fin.1 (λ y c. i y (omega arith))
            (λ y c u. elim (Bool-cases (y == x)) [
              | inl same ↦ absurd (cc (e, u, eq-of-== y x same))
              | inr other ↦ ground (arith, rest y c u)
            ])
            (rw e at eq)
      | inr e ↦
          let (m, eq', r) =
            depth_first_total (backward-IsWalk g) insts closed f x (new_scc s) (i x (ground arith))
              e (omega (arith, unseen-le s.used insts, enough)) in
          let here = i x (ground arith) in
          let marks = Run-seen (backward-IsWalk g) r in
          let inside : (y : ℕ) → s.used y ≡ false → m.used y ≡ true → 0 < count y insts = λ y p q.
            elim (Bool-cases (x == y)) [
              | inl same ↦ subst (λ k. 0 < count k insts) (eq-of-== x y same) here
              | inr other ↦
                  Run-inside (backward-IsWalk g) insts r closed (λ k c. closed x k here c) y
                    (ground arith) q
            ] in
          let fresh =
            λ (y : ℕ) (p : s.used y ≡ false) (q : m.used y ≡ true). rest y (inside y p q) p in
          backward_all-IsStrong xs (end_scc ((backward g).leave x m)) t
            (root-Settled g x s m settled e r)
            (root-IsStrong x xs s m settled e r fresh fin.0 strong) fin.1 (λ y c. i y (omega arith))
            (λ y c u. ground (arith, rest y c, marks y, marks x)) (rw (e, eq') at eq)
    ]

-- `findSCC` returns, given enough fuel, and two instructions of the loop get the same component if
-- and only if each depends on the other through dependences of the graph.
pub find_scc-Reach :
    (g : Pdg) (insts : List ℕ) (fuel : ℕ)
    → IsConsistent g
    → IsWithin g insts
    → length insts ≤ fuel
    → (t : Scc) × (find_scc g fuel insts no_scc ≡ some t)
      × ((x y : ℕ)
          → 0 < count x insts
          → 0 < count y insts
          → (t.scc_id x ≡ t.scc_id y) ↔ (Reach g x y × Reach g y x))
unfolding find_scc
find_scc-Reach g insts fuel ok within h =
    let closed : IsClosed (backward-IsWalk g) insts =
      λ v n c d. (within n v (pdg-of-rev n v ok d)).0 in
    let (m, eq, p) =
      forward_all_total g insts (λ v n c d. (within v n d).1) fuel insts no_scc (λ x c. c) h in
    let order = λ (x : ℕ). listed g insts p x in
    let inside : (x : ℕ) → 0 < count x (reverse m.order) → 0 < count x insts =
      λ x c. ground (arith, count-reverse x m.order, order x, p.inside x) in
    let rest : (x : ℕ) → 0 < count x insts → 0 < count x (reverse m.order) =
      λ x c. ground (arith, count-reverse x m.order, order x, p.all x c) in
    let (t, eq', q, seen, all, _) =
      backward_all_total g insts closed fuel (reverse m.order) (start g insts m)
        (start-Settled g insts p) inside h in
    let nothing : IsFinished g (reverse m.order) =
      (p.finishes (record {
        finished = tt;
        marked = λ x c. absurd (omega arith);
        closed = λ x y c d. absurd (omega arith);
      })).finished in
    let strong =
      backward_all-IsStrong g ok insts closed fuel h (reverse m.order) (start g insts m) t
        (start-Settled g insts p) (λ a b u v e. absurd (cc)) nothing inside (λ x c u. rest x c)
        eq' in
    let found : find_scc g fuel insts no_scc ≡ some t = rw eq eq' in
    let (t', eq'', cycle) = find_scc-cycle g insts fuel ok within h in
    let same : t' ≡ t = cc (found, eq'') in
    (
      t,
      found,
      λ x y cx cy. (
        λ e.
            let ux = all x (rest x cx) in
            let uy = all y (rest y cy) in (strong x y ux uy e, strong y x uy ux (sym e)),
        λ r. subst (λ (k : Scc). k.scc_id x ≡ k.scc_id y) same (cycle x y r.0 r.1),
      ),
    )
