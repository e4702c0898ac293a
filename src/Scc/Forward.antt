-- ===== src/Scc/Forward.antt =====
-- The first pass of `findSCC` (DSWP_2.cpp), and the list that it makes.
use dswp_plus.Base.{
  ℕ, ◌≡◌, refl, ◌∙◌, true, false, some, List, [], ◌∷◌, ◌==◌, if◌then◌else◌, count, count-snoc,
  length, arith, ◌+◌, ◌<◌, ◌≤◌, Bool-cases, inl, inr, eq-of-==,
}
use dswp_plus.Pdg.{Pdg, targets}
use dswp_plus.Search.{Run, done, old, new}
use dswp_plus.Search.Marks.{Run-seen, Run-inside, unseen-le}
use dswp_plus.Search.Total.{IsClosed, depth_first_total}
use dswp_plus.Scc.Finish.{
  forward-IsWalk, forward-order, Finishes, enter-Finishes, leave-Finishes, Run-Finishes,
}
use dswp_plus.Scc.Defs.{Scc, forward, dfs_forward, forward_all}

module _ (g : Pdg) where
  -- The tables that the second pass writes stay as they are.
  abbrev pub SameDag : Scc → Scc → Type 0
  SameDag s t = (t.scc_id ≡ s.scc_id) × (t.dependents ≡ s.dependents) × (t.parents ≡ s.parents)

  forward-SameDag : {v : ℕ} {ns : List ℕ} {s t : Scc} → Run (forward g) v ns s t → SameDag s t
  forward-SameDag done = (refl, refl, refl)
  forward-SameDag (old e r) = forward-SameDag r
  forward-SameDag (new e r r') =
      let p = forward-SameDag r in let q = forward-SameDag r' in (q.0 ∙ p.0, q.1 ∙ p.1, q.2 ∙ p.2)

  module _ (insts : List ℕ) where
    -- What the first loop of `findSCC` does from `s`, over the instructions `xs`.
    pub record Listed (xs : List ℕ) (s t : Scc) : Type 0 where
      pub seen : (x : ℕ) → s.used x ≡ true → t.used x ≡ true
      pub all : (x : ℕ) → 0 < count x xs → t.used x ≡ true
      pub inside : (x : ℕ) → s.used x ≡ false → t.used x ≡ true → 0 < count x insts
      pub counts :
          (x : ℕ)
          → count x t.order + (if s.used x then 1 else 0)
            ≡ count x s.order + (if t.used x then 1 else 0)
      pub same : SameDag s t
      pub finishes : Finishes g s → Finishes g t

    -- One instruction of the loop.
    visit_Listed :
        (x : ℕ) (s t : Scc)
        → IsClosed (forward-IsWalk g) insts
        → 0 < count x insts
        → s.used x ≡ false
        → Run (forward g) x (targets (g.pdg x)) ((forward g).enter x s) t
        → Listed (x ∷ []) s ((forward g).leave x t)
    visit_Listed x s t closed c e r = record {
      seen = λ y h. Run-seen (forward-IsWalk g) r y (ground arith);
      all = λ y h. Run-seen (forward-IsWalk g) r y (ground arith);
      inside = λ y h k. elim (Bool-cases (x == y)) [
        | inl q ↦ let q' = eq-of-== x y q in ground arith
        | inr q ↦
            Run-inside (forward-IsWalk g) insts r closed (λ m d. closed x m c d) y (ground arith) k
      ];
      counts = λ y. ground (
        arith,
        forward-order g r y,
        count-snoc y x t.order,
        Run-seen (forward-IsWalk g) r x (ground arith),
      );
      same = forward-SameDag r;
      finishes = λ f. leave-Finishes g x s t f e r (Run-Finishes g r (enter-Finishes g x s f));
    }

    Listed-trans :
        {xs : List ℕ} {x : ℕ} {s t u : Scc}
        → Listed (x ∷ []) s t
        → Listed xs t u
        → Listed (x ∷ xs) s u
    Listed-trans {xs} {x} {s} {t} {u} p q = record {
      seen = λ y h. q.seen y (p.seen y h);
      all = λ y h. ground (arith, q.all y, q.seen y, p.all y);
      inside = λ y h k. ground (arith, q.inside y, p.inside y, q.seen y);
      counts = λ y. omega (arith, p.counts y, q.counts y);
      same = (q.same.0 ∙ p.same.0, q.same.1 ∙ p.same.1, q.same.2 ∙ p.same.2);
      finishes = λ f. q.finishes (p.finishes f);
    }

    Listed-skip :
        {xs : List ℕ} {x : ℕ} {s t : Scc} → s.used x ≡ true → Listed xs s t → Listed (x ∷ xs) s t
    Listed-skip {x = x} e p = record {
      seen = p.seen;
      all = λ y h. ground (arith, p.all y, p.seen y);
      inside = p.inside;
      counts = p.counts;
      same = p.same;
      finishes = p.finishes;
    }

    -- The first loop returns, whatever the order of the instructions.
    pub forward_all_total :
        IsClosed (forward-IsWalk g) insts
        → (f : ℕ) (xs : List ℕ) (s : Scc) → ((x : ℕ) → 0 < count x xs → 0 < count x insts)
        → length insts ≤ f
        → (t : Scc) × (forward_all g f xs s ≡ some t) × Listed xs s t
    unfolding forward_all dfs_forward
    forward_all_total closed f [] s i h = (
      s,
      refl,
      record {
        seen = λ x e. e;
        all = λ x c. absurd (omega arith);
        inside = λ x a b. absurd (cc);
        counts = λ x. refl;
        same = (refl, refl, refl);
        finishes = λ k. k;
      },
    )
    forward_all_total closed f (x ∷ xs) s i h = elim (Bool-cases (s.used x)) [
      | inl e ↦
          let (t, eq, p) = forward_all_total closed f xs s (λ y c. i y (omega arith)) h in
          (t, rw e eq, Listed-skip e p)
      | inr e ↦
          let c : 0 < count x insts = i x (ground arith) in
          let (t, eq, r) =
            depth_first_total (forward-IsWalk g) insts closed f x s c e
              (omega (arith, unseen-le s.used insts)) in
          let (u, eq', q) =
            forward_all_total closed f xs ((forward g).leave x t) (λ y c. i y (omega arith)) h in
          (u, rw (e, eq) eq', Listed-trans (visit_Listed x s t closed c e r) q)
    ]
