-- ===== src/Scc/Settled.antt =====
-- The invariant between two calls of `dfs_reverse` from the loop of `findSCC` (DSWP_2.cpp).
use dswp_plus.Base.{
  ℕ, ◌≡◌, sym, ◌∙◌, true, false, ◌==◌, count, arith, ◌<◌, ◌⊎◌, inl, inr, Bool-cases, eq-of-==,
}
use dswp_plus.Pdg.{Pdg, targets}
use dswp_plus.Search.{Run}
use dswp_plus.Search.Marks.{Run-targets, Run-closed}
use dswp_plus.Scc.Defs.{Scc, backward, new_scc, end_scc}
use dswp_plus.Scc.Dag.{IsDag, leave-IsDag, Run-IsDag}
use dswp_plus.Scc.Members.{HasMembers, root-HasMembers}
use dswp_plus.Scc.Backward.{
  backward-IsWalk, Grown, Grown-call, Run-Grown, Linked, Run-Linked, Run-Linked-fresh,
}

-- The component of `y` is that of `x`, or is recorded as one that the component of `x` depends on.
abbrev pub Ordered : Scc → ℕ → ℕ → Type 0
Ordered s y x = (s.scc_id y ≡ s.scc_id x) ⊎ (s.dag_added (s.scc_id y) (s.scc_id x) ≡ true)

module _ (g : Pdg) where
  -- What holds whenever no call of `dfs_reverse` is under way.
  pub record Settled (s : Scc) : Type 0 where
    pub is_dag : IsDag s
    pub strict : (a b : ℕ) → s.dag_added a b ≡ true → b < s.scc_num
    pub ids : (x : ℕ) → s.used x ≡ true → s.scc_id x < s.scc_num
    pub has_members : HasMembers s
    pub closed : (x y : ℕ) → s.used x ≡ true → 0 < count y (targets (g.rev x)) → s.used y ≡ true
    pub edges : (x y : ℕ) → s.used x ≡ true → 0 < count y (targets (g.rev x)) → Ordered s y x

  module _ (r : ℕ) (s t : Scc) (ok : Settled s) (e : s.used r ≡ false)
      (run : Run (backward g) r (targets (g.rev r)) ((backward g).enter r (new_scc s)) t) where
    abbrev after : Scc
    after = end_scc ((backward g).leave r t)

    call : Grown (new_scc s) ((backward g).leave r t)
    call = Grown-call g r (new_scc s) t e (Run-Grown g run)

    root-ids : (x : ℕ) → after.used x ≡ true → after.scc_id x < after.scc_num
    root-ids x h = elim (Bool-cases (s.used x)) [
      | inl a ↦ omega (arith, call.kept x a, ok.ids x a, call.num)
      | inr a ↦ omega (arith, call.fresh x a h, call.num)
    ]

    root-closed :
        (x y : ℕ) → after.used x ≡ true → 0 < count y (targets (g.rev x)) → after.used y ≡ true
    root-closed x y h c = elim (Bool-cases (s.used x)) [
      | inl a ↦ call.seen y (ok.closed x y a c)
      | inr a ↦ elim (Bool-cases (r == x)) [
        | inl here ↦ Run-targets (backward-IsWalk g) run y (rw (eq-of-== r x here) c)
        | inr there ↦ Run-closed (backward-IsWalk g) run x (ground arith) h y c
      ]
    ]

    -- A new node's edge to an old node was looked at.
    root-new :
        (x y : ℕ)
        → s.used x ≡ false
        → after.used x ≡ true
        → 0 < count y (targets (g.rev x))
        → s.used y ≡ true
        → Linked ((backward g).enter r (new_scc s)) t y
    root-new x y a h c b = elim (Bool-cases (r == x)) [
      | inl here ↦ Run-Linked g run y (rw (eq-of-== r x here) c) (ground arith)
      | inr there ↦ Run-Linked-fresh g run x (ground arith) h y c (ground arith)
    ]

    root-edges :
        (x y : ℕ) → after.used x ≡ true → 0 < count y (targets (g.rev x)) → Ordered after y x
    root-edges x y h c = elim (Bool-cases (s.used x)) [
      | inl a ↦
          let b = ok.closed x y a c in
          ground (
            arith,
            call.kept x a,
            call.kept y b,
            ok.edges x y a c,
            call.dag (s.scc_id y) (s.scc_id x),
          )
      | inr a ↦ elim (Bool-cases (s.used y)) [
        | inl b ↦ ground (
          arith,
          call.kept y b,
          call.fresh x a h,
          call.num,
          root-new x y a h c b,
          Run-Grown g run,
        )
        | inr b ↦ inl (call.fresh y b (root-closed x y h c) ∙ sym (call.fresh x a h))
      ]
    ]

    pub root-Settled : Settled after
    root-Settled =
        let d = leave-IsDag g r (
          Run-IsDag g run (record {
            ids = ok.is_dag.ids;
            upward = ok.is_dag.upward;
            deps = ok.is_dag.deps;
            pars = ok.is_dag.pars;
          })) in
        record {
          is_dag = record {
            ids = λ x. omega (arith, d.ids x);
            upward = λ a b h. omega (arith, d.upward a b h);
            deps = d.deps;
            pars = d.pars;
          };
          strict = λ a b h. omega (arith, d.upward a b h);
          ids = root-ids;
          has_members = root-HasMembers g r s t ok.has_members e ok.ids run;
          closed = root-closed;
          edges = root-edges;
        }
