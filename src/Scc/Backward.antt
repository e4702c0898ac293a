-- ===== src/Scc/Backward.antt =====
-- What one call of `dfs_reverse` does: the new nodes get the current component, and each edge to a
-- node that was used before is in the table.
use dswp_plus.Base.{
  ℕ, ◌≡◌, refl, ◌∙◌, true, false, List, ◌==◌, count, arith, ◌<◌, ◌⊎◌, inl, inr, Bool-cases,
  eq-of-==,
}
use dswp_plus.Pdg.{Pdg, targets}
use dswp_plus.Search.{IsWalk, Run, done, old, new}
use dswp_plus.Scc.Defs.{Scc, link, backward}

pub used-link : (n : ℕ) (s : Scc) → (link n s).used ≡ s.used
unfolding link
used-link n s = ground arith

module _ (g : Pdg) where
  pub backward-IsWalk : IsWalk (backward g)
  unfolding link
  backward-IsWalk = record {
    seen_enter = λ v x s. refl;
    seen_again = λ v n x s. ground arith;
    seen_leave = λ v x s. refl;
  }

-- What happens to the tables between two moments of the second pass within one component.
pub record Grown (s t : Scc) : Type 0 where
  pub num : t.scc_num ≡ s.scc_num
  pub seen : (x : ℕ) → s.used x ≡ true → t.used x ≡ true
  pub kept : (x : ℕ) → s.used x ≡ true → t.scc_id x ≡ s.scc_id x
  pub fresh : (x : ℕ) → s.used x ≡ false → t.used x ≡ true → t.scc_id x ≡ s.scc_num
  pub dag : (a b : ℕ) → s.dag_added a b ≡ true → t.dag_added a b ≡ true

Grown-refl : (s : Scc) → Grown s s
Grown-refl s = record {
  num = refl;
  seen = λ x h. h;
  kept = λ x h. refl;
  fresh = λ x a b. absurd (cc);
  dag = λ a b h. h;
}

Grown-trans : {s t u : Scc} → Grown s t → Grown t u → Grown s u
Grown-trans {s} {t} {u} p q = record {
  num = q.num ∙ p.num;
  seen = λ x h. q.seen x (p.seen x h);
  kept = λ x h. q.kept x (p.seen x h) ∙ p.kept x h;
  fresh = λ x a b. elim (Bool-cases (t.used x)) [
    | inl c ↦ q.kept x c ∙ p.fresh x a c
    | inr c ↦ q.fresh x c b ∙ p.num
  ];
  dag = λ a b h. q.dag a b (p.dag a b h);
}

Grown-link : (n : ℕ) (s : Scc) → Grown s (link n s)
unfolding link
Grown-link n s = record {
  num = ground arith;
  seen = λ x h. ground arith;
  kept = λ x h. ground arith;
  fresh = λ x a b. ground arith;
  dag = λ a b h. ground arith;
}

module _ (g : Pdg) where
  -- A call for a new node, from its mark to the end.
  pub Grown-call :
      (n : ℕ) (s t : Scc)
      → s.used n ≡ false
      → Grown ((backward g).enter n s) t
      → Grown s ((backward g).leave n t)
  Grown-call n s t e p = record {
    num = p.num;
    seen = λ x h. p.seen x (ground arith);
    kept = λ x h. ground (arith, p.kept x);
    fresh = λ x a b. ground (arith, p.fresh x, p.num);
    dag = p.dag;
  }

  pub Run-Grown : {v : ℕ} {ns : List ℕ} {s t : Scc} → Run (backward g) v ns s t → Grown s t
  Run-Grown (done {s = s}) = Grown-refl s
  Run-Grown (old {n = n} {s = s} e r) = Grown-trans (Grown-link n s) (Run-Grown r)
  Run-Grown (new {n = n} {s = s} {t = t} e r r') =
      Grown-trans (Grown-call n s t e (Run-Grown r)) (Run-Grown r')

-- A dependence on a node `y` that was used at `s`, as the table of `t` has it.
abbrev pub Linked : Scc → Scc → ℕ → Type 0
Linked s t y = (s.scc_id y ≡ s.scc_num) ⊎ (t.dag_added (s.scc_id y) s.scc_num ≡ true)

link-Linked : (n : ℕ) (s : Scc) → Linked s (link n s) n
unfolding link
link-Linked n s = ground arith

Linked-later : (s : Scc) (y : ℕ) {t u : Scc} → Grown t u → Linked s t y → Linked s u y
Linked-later s y p (inl e) = inl e
Linked-later s y p (inr e) = inr (p.dag _ _ e)

Linked-earlier :
    (u : Scc) (y : ℕ) {s t : Scc} → Grown s t → s.used y ≡ true → Linked t u y → Linked s u y
Linked-earlier u y {s} {t} p h q = ground (arith, p.num, p.kept y h)

module _ (g : Pdg) where
  -- The loop of a call looks at every neighbour.
  pub Run-Linked :
      {v : ℕ} {ns : List ℕ} {s t : Scc}
      → Run (backward g) v ns s t
      → (y : ℕ) → 0 < count y ns
      → s.used y ≡ true
      → Linked s t y
  Run-Linked done y c h = absurd (omega arith)
  Run-Linked (old {v} {n} {ns} {s} {t} e r) y c h = elim (Bool-cases (y == n)) [
    | inl q ↦ Linked-later s y (Run-Grown g r) (rw (eq-of-== y n q) (link-Linked n s))
    | inr q ↦ Linked-earlier t y (Grown-link n s) h (Run-Linked r y (ground arith) (rw used-link h))
  ]
  Run-Linked (new {v} {n} {ns} {s} {t} {u} e r r') y c h =
      let call = Grown-call g n s t e (Run-Grown g r) in
      Linked-earlier u y call h (Run-Linked r' y (ground arith) (call.seen y h))

  -- The same at each node that the call visits on its way.
  pub Run-Linked-fresh :
      {v : ℕ} {ns : List ℕ} {s t : Scc}
      → Run (backward g) v ns s t
      → (x : ℕ) → s.used x ≡ false
      → t.used x ≡ true
      → (y : ℕ) → 0 < count y (targets (g.rev x))
      → s.used y ≡ true
      → Linked s t y
  Run-Linked-fresh done x a b y c h = absurd (cc)
  Run-Linked-fresh (old {v} {n} {ns} {s} {t} e r) x a b y c h =
      Linked-earlier t y (Grown-link n s) h
        (Run-Linked-fresh r x (rw used-link a) b y c (rw used-link h))
  Run-Linked-fresh (new {v} {n} {ns} {s} {t} {u} e r r') x a b y c h =
      let first = Run-Grown g r in
      let call = Grown-call g n s t e first in
      let rest = Run-Grown g r' in
      elim (Bool-cases (t.used x)) [
        | inr q ↦ Linked-earlier u y call h (Run-Linked-fresh r' x q b y c (call.seen y h))
        | inl q ↦
            let before : Linked ((backward g).enter n s) t y = elim (Bool-cases (n == x)) [
              | inl here ↦ Run-Linked r y (rw (eq-of-== n x here) c) (ground arith)
              | inr there ↦ Run-Linked-fresh r x (ground arith) q y c (ground arith)
            ] in
            Linked-later s y rest before
      ]
