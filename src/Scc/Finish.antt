-- ===== src/Scc/Finish.antt =====
-- The order in which the first pass of `findSCC` (DSWP_2.cpp) finishes the instructions.
use mathlib.Core.List.{reverse, reverse-append}
use dswp_plus.Base.{
  ℕ, ◌≡◌, refl, sym, subst, true, false, List, [], ◌∷◌, ◌==◌, if◌then◌else◌, count, count-snoc,
  count-reverse, arith, ◌+◌, ◌<◌, Bool-cases, inl, inr, eq-of-==,
}
use dswp_plus.Pdg.{Pdg, targets}
use dswp_plus.Search.{IsWalk, Run, done, old, new}
use dswp_plus.Search.Marks.{Run-seen, Run-targets}
use dswp_plus.Scc.Defs.{Scc, forward}
use dswp_plus.Scc.Graph.{Depends}
use dswp_plus.Scc.Reach.{Reach, Reach-trans, Way}

module _ (g : Pdg) where
  pub forward-IsWalk : IsWalk (forward g)
  forward-IsWalk = record {
    seen_enter = λ v x s. refl;
    seen_again = λ v n x s. refl;
    seen_leave = λ v x s. refl;
  }

  -- A run appends what it marks, each node once.
  pub forward-order :
      {v : ℕ} {ns : List ℕ} {s t : Scc}
      → Run (forward g) v ns s t
      → (x : ℕ)
      → count x t.order + (if s.used x then 1 else 0)
        ≡ count x s.order + (if t.used x then 1 else 0)
  forward-order done x = refl
  forward-order (old e r) x = forward-order r x
  forward-order (new {v} {n} {ns} {s} {t} {u} e r r') x = ground (
    arith,
    forward-order r x,
    forward-order r' x,
    count-snoc x n t.order,
    Run-seen forward-IsWalk r n (ground arith),
  )

  -- A list in which each instruction comes before those that finished earlier: what leads to it by
  -- those is reached by it.
  abbrev pub IsFinished : List ℕ → Type 0
  IsFinished [] = Unit
  IsFinished (r ∷ rest) = ((x : ℕ) → Way g rest r x → Reach g r x) × IsFinished rest

  -- What holds during the first pass; instructions of calls under way are marked and not listed.
  pub record Finishes (s : Scc) : Type 0 where
    pub finished : IsFinished (reverse s.order)
    pub marked : (x : ℕ) → 0 < count x s.order → s.used x ≡ true
    pub closed : (x y : ℕ) → 0 < count x s.order → Depends g x y → s.used y ≡ true

  -- A run reaches what it marks.
  Run-Reach :
      {v : ℕ} {ns : List ℕ} {s t : Scc}
      → Run (forward g) v ns s t
      → ((n : ℕ) → 0 < count n ns → Depends g v n)
      → (x : ℕ) → s.used x ≡ false
      → t.used x ≡ true
      → Reach g v x
  Run-Reach done d x a b = absurd (cc)
  Run-Reach (old {v} {n} {ns} {s} e r) d x a b = Run-Reach r (λ m c. d m (omega arith)) x a b
  Run-Reach (new {v} {n} {ns} {s} {t} e r r') d x a b = elim (Bool-cases (t.used x)) [
    | inr q ↦ Run-Reach r' (λ m c. d m (omega arith)) x q b
    | inl q ↦
        let first = Reach.step Reach.here (d n (ground arith)) in
        elim (Bool-cases (n == x)) [
          | inl same ↦ subst (Reach g v) (eq-of-== n x same) first
          | inr other ↦ Reach-trans first (Run-Reach r (λ m c. c) x (ground arith) q)
        ]
  ]

  module _ (n : ℕ) (s t : Scc) (ok : Finishes s) (e : s.used n ≡ false)
      (r : Run (forward g) n (targets (g.pdg n)) ((forward g).enter n s) t) where
    was_listed : (x : ℕ) → s.used x ≡ true → 0 < count x (reverse t.order) → 0 < count x s.order
    was_listed x h c = ground (
      arith,
      h,
      forward-order r x,
      count-reverse x t.order,
      c,
      Run-seen forward-IsWalk r x (ground arith),
    )

    -- What was listed before the call does not lead to `n` by listed instructions.
    no-Way : (x : ℕ) → 0 < count x s.order → ¬ Way g (reverse t.order) n x
    no-Way x c Way.end = absurd (cc (ok.marked n c))
    no-Way x c (Way.by m d Way.end) = absurd (cc (ok.closed x n c d))
    no-Way x c (Way.by {y = y} m d (Way.by m' d' w)) =
        no-Way y (was_listed y (ok.closed x y c d) m') (Way.by m' d' w)

    -- The instructions that lead to `n` by listed ones were marked during the call.
    back-Reach : (x : ℕ) → Way g (reverse t.order) n x → Reach g n x
    back-Reach x Way.end = Reach.here
    back-Reach x (Way.by m d w) = elim (Bool-cases (x == n)) [
      | inl same ↦ subst (Reach g n) (sym (eq-of-== x n same)) Reach.here
      | inr other ↦ elim (Bool-cases (s.used x)) [
        | inl old_one ↦ absurd (no-Way x (was_listed x old_one m) (Way.by m d w))
        | inr new_one ↦
            Run-Reach r (λ k c. c) x (ground arith)
              (ground (arith, forward-order r x, count-reverse x t.order, m, ok.marked x))
      ]
    ]

    pub leave-Finishes : Finishes t → Finishes ((forward g).leave n t)
    leave-Finishes p = record {
      finished =
          subst (IsFinished) (sym (reverse-append t.order (n ∷ []))) (back-Reach, p.finished);
      marked = λ x c. elim (Bool-cases (x == n)) [
        | inl same ↦ Run-seen forward-IsWalk r x (ground arith)
        | inr other ↦ p.marked x (ground (arith, count-snoc x n t.order))
      ];
      closed = λ x y c d. elim (Bool-cases (x == n)) [
        | inl same ↦ Run-targets forward-IsWalk r y (rw (← eq-of-== x n same) d)
        | inr other ↦ p.closed x y (ground (arith, count-snoc x n t.order)) d
      ];
    }

  pub enter-Finishes : (n : ℕ) (s : Scc) → Finishes s → Finishes ((forward g).enter n s)
  enter-Finishes n s ok = record {
    finished = ok.finished;
    marked = λ x c. ground (arith, ok.marked x c);
    closed = λ x y c d. ground (arith, ok.closed x y c d);
  }

  pub Run-Finishes :
      {v : ℕ} {ns : List ℕ} {s t : Scc} → Run (forward g) v ns s t → Finishes s → Finishes t
  Run-Finishes done ok = ok
  Run-Finishes (old e r) ok = Run-Finishes r ok
  Run-Finishes (new {v} {n} {ns} {s} {t} e r r') ok =
      Run-Finishes r' (leave-Finishes n s t ok e r (Run-Finishes r (enter-Finishes n s ok)))
