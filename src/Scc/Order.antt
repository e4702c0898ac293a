-- ===== src/Scc/Order.antt =====
-- `findSCC` (DSWP_2.cpp) as a whole, and the order of the components.
use mathlib.Core.List.{reverse}
use dswp_plus.Base.{
  ℕ, ◌≡◌, refl, true, false, some, List, [], ◌∷◌, ◌==◌, if◌then◌else◌, count, count-reverse, length,
  get_or, ltb, ◌&&◌, arith, ◌<◌, ◌≤◌, inl, inr, Bool-cases, eq-of-==,
}
use dswp_plus.Pdg.{Pdg}
use dswp_plus.Pdg.Tables.{IsConsistent}
use dswp_plus.Search.Marks.{Run-seen, Run-inside, unseen-le}
use dswp_plus.Search.Total.{IsClosed, depth_first_total}
use dswp_plus.Scc.Defs.{
  Scc, no_scc, backward, dfs_reverse, new_scc, end_scc, backward_all, find_scc,
}
use dswp_plus.Scc.Graph.{Depends, rev-of-pdg, pdg-of-rev}
use dswp_plus.Scc.Forward.{Listed, forward_all_total}
use dswp_plus.Scc.Backward.{backward-IsWalk}
use dswp_plus.Scc.Settled.{Ordered, Settled, root-Settled}

-- Every dependence is one between instructions of the loop.
abbrev pub IsWithin : Pdg → List ℕ → Type 0
IsWithin g insts = (x y : ℕ) → Depends g x y → (0 < count x insts) × (0 < count y insts)

module _ (g : Pdg) (insts : List ℕ) where
  -- The second loop of `findSCC` returns, and uses up its list.
  pub backward_all_total :
      IsClosed (backward-IsWalk g) insts
      → (f : ℕ) (xs : List ℕ) (s : Scc) → Settled g s
      → ((x : ℕ) → 0 < count x xs → 0 < count x insts)
      → length insts ≤ f
      → (t : Scc) × (backward_all g f xs s ≡ some t)
        × Settled g t
        × ((x : ℕ) → s.used x ≡ true → t.used x ≡ true)
        × ((x : ℕ) → 0 < count x xs → t.used x ≡ true)
        × ((x : ℕ) → s.used x ≡ false → t.used x ≡ true → 0 < count x insts)
  unfolding backward_all dfs_reverse
  backward_all_total closed f [] s ok i h =
      (s, refl, ok, λ x e. e, λ x c. absurd (omega arith), λ x a b. absurd (cc))
  backward_all_total closed f (x ∷ xs) s ok i h = elim (Bool-cases (s.used x)) [
    | inl e ↦
        let (t, eq, ok', seen, all, inside) =
          backward_all_total closed f xs s ok (λ y c. i y (omega arith)) h in
        (t, rw e eq, ok', seen, λ y c. ground (arith, all y, seen y), inside)
    | inr e ↦
        let (t, eq, r) =
          depth_first_total (backward-IsWalk g) insts closed f x (new_scc s) (i x (ground arith)) e
            (omega (arith, unseen-le s.used insts)) in
        let marks = Run-seen (backward-IsWalk g) r in
        let (u, eq', ok', seen, all, inside) =
          backward_all_total closed f xs (end_scc ((backward g).leave x t))
            (root-Settled g x s t ok e r) (λ y c. i y (omega arith)) h in
        (
          u,
          rw (e, eq) eq',
          ok',
          λ y p. seen y (marks y (ground arith)),
          λ y c. ground (arith, all y, seen y, marks y),
          λ y a b. elim (Bool-cases (x == y)) [
            | inl here ↦ let here' = eq-of-== x y here in i y (ground arith)
            | inr there ↦ elim (Bool-cases (t.used y)) [
              | inr later ↦ inside y later b
              | inl now ↦
                  Run-inside (backward-IsWalk g) insts r closed
                    (λ m k. closed x m (i x (ground arith)) k) y (ground arith) now
            ]
          ],
        )
  ]

  -- What `findSCC` leaves for the later steps.
  pub record IsOrdered (t : Scc) : Type 0 where
    pub ids : (x : ℕ) → 0 < count x insts → t.scc_id x < t.scc_num
    pub edges : (x y : ℕ) → Depends g x y → Ordered t x y
    pub members :
        (k x : ℕ)
        → count x (get_or t.inst_in_scc k [])
          ≡ (if ltb 0 (count x insts) && t.scc_id x == k then 1 else 0)
    pub upward : (a b : ℕ) → t.dag_added a b ≡ true → (a < b) × (b < t.scc_num)
    pub deps : (a b : ℕ) → count b (t.dependents a) ≡ (if t.dag_added a b then 1 else 0)
    pub pars : (a b : ℕ) → count a (t.parents b) ≡ (if t.dag_added a b then 1 else 0)

  abbrev pub start : Scc → Scc
  start t = record t { used = λ _. false; dag_added = λ _ _. false; scc_num = 0; inst_in_scc = [] }

  pub start-Settled : {t : Scc} → Listed g insts insts no_scc t → Settled g (start t)
  start-Settled {t} p = record {
    is_dag = record {
      ids = λ x. rw p.same.0 (omega arith);
      upward = λ a b h. absurd (cc);
      deps = λ a b. rw p.same.1;
      pars = λ a b. rw p.same.2;
    };
    strict = λ a b h. absurd (cc);
    ids = λ x h. absurd (cc);
    has_members = record { size = refl; members = λ k x. refl };
    closed = λ x y h c. absurd (cc);
    edges = λ x y h c. absurd (cc);
  }

  -- The first loop of `findSCC` marks each instruction and nothing else.
  pub listed :
      {t : Scc}
      → Listed g insts insts no_scc t
      → (x : ℕ) → count x t.order ≡ (if t.used x then 1 else 0)
  listed p x = omega (arith, p.counts x)

  -- Of a consistent dependence graph within the loop, and given fuel for the number of instructions,
  -- `findSCC` returns. Every instruction has a component below `sccNum`, and stands in the list of
  -- that component once and in no other. A dependence leads to the same component or to one that
  -- `dag_added` records; what that records leads to a later component, and `scc_dependents` and
  -- `scc_parents` list exactly what it records, each pair once.
  pub find_scc-IsOrdered :
      IsConsistent g
      → IsWithin g insts
      → (f : ℕ) → length insts ≤ f
      → (t : Scc) × (find_scc g f insts no_scc ≡ some t) × IsOrdered t
  unfolding find_scc
  find_scc-IsOrdered ok within f h =
      let (t, eq, p) =
        forward_all_total g insts (λ v n c d. (within v n d).1) f insts no_scc (λ x c. c) h in
      let order = λ (x : ℕ). listed p x in
      let (u, eq', q, seen, all, inside) =
        backward_all_total (λ v n c d. (within n v (pdg-of-rev n v ok d)).0) f (reverse t.order)
          (start t) (start-Settled p)
          (λ x c. ground (arith, count-reverse x t.order, order x, p.inside x)) h in
      let used = λ (x : ℕ) (c : 0 < count x insts).
        all x (ground (arith, count-reverse x t.order, order x, p.all x c)) in
      (
        u,
        rw eq eq',
        record {
          ids = λ x c. q.ids x (used x c);
          edges = λ x y d. q.edges y x (used y (within x y d).1) (rev-of-pdg x y ok d);
          members = λ k x. ground (arith, q.has_members.members k x, inside x, used x);
          upward = λ a b e. omega (arith, q.is_dag.upward a b e, q.strict a b e);
          deps = q.is_dag.deps;
          pars = q.is_dag.pars;
        },
      )
