-- ===== src/Scc/Dag.antt =====
-- The table of components that depend on one another, as `dfs_reverse` fills it.
use dswp_plus.Base.{ℕ, ◌≡◌, true, List, if◌then◌else◌, count, count-snoc, arith, ◌<◌, ◌≤◌}
use dswp_plus.Pdg.{Pdg}
use dswp_plus.Search.{Run, done, old, new}
use dswp_plus.Scc.Defs.{Scc, link, backward}

-- `scc_dependents` and `scc_parents` list exactly the pairs of `dag_added`, each once, and these
-- lead from a component to a later one.
pub record IsDag (s : Scc) : Type 0 where
  pub ids : (x : ℕ) → s.scc_id x ≤ s.scc_num
  pub upward : (a b : ℕ) → s.dag_added a b ≡ true → (a < b) × (b ≤ s.scc_num)
  pub deps : (a b : ℕ) → count b (s.dependents a) ≡ (if s.dag_added a b then 1 else 0)
  pub pars : (a b : ℕ) → count a (s.parents b) ≡ (if s.dag_added a b then 1 else 0)

module _ (n : ℕ) {s : Scc} (ok : IsDag s) where
  link-upward : (a b : ℕ) → (link n s).dag_added a b ≡ true → (a < b) × (b ≤ (link n s).scc_num)
  unfolding link
  link-upward a b h = ground (arith, ok.upward a b, ok.ids n)

  link-deps :
      (a b : ℕ) → count b ((link n s).dependents a) ≡ (if (link n s).dag_added a b then 1 else 0)
  unfolding link
  link-deps a b = ground (arith, ok.deps a b, count-snoc b s.scc_num (s.dependents (s.scc_id n)))

  link-pars :
      (a b : ℕ) → count a ((link n s).parents b) ≡ (if (link n s).dag_added a b then 1 else 0)
  unfolding link
  link-pars a b = ground (arith, ok.pars a b, count-snoc a (s.scc_id n) (s.parents s.scc_num))

  pub link-IsDag : IsDag (link n s)
  unfolding link
  link-IsDag = record {
    ids = λ x. ground (arith, ok.ids x);
    upward = link-upward;
    deps = link-deps;
    pars = link-pars;
  }

module _ (g : Pdg) where
  pub leave-IsDag : (x : ℕ) {s : Scc} → IsDag s → IsDag ((backward g).leave x s)
  leave-IsDag x {s} ok = record {
    ids = λ y. ground (arith, ok.ids y);
    upward = ok.upward;
    deps = ok.deps;
    pars = ok.pars;
  }

  pub Run-IsDag : {v : ℕ} {ns : List ℕ} {s t : Scc} → Run (backward g) v ns s t → IsDag s → IsDag t
  Run-IsDag done ok = ok
  Run-IsDag (old {v} {n} e r) ok = Run-IsDag r (link-IsDag n ok)
  Run-IsDag (new {v} {n} {ns} {s} {t} e r r') ok = Run-IsDag r' (
      leave-IsDag n
        (Run-IsDag r (record { ids = ok.ids; upward = ok.upward; deps = ok.deps; pars = ok.pars })))
