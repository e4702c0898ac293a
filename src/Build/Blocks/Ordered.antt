-- ===== src/Build/Blocks/Ordered.antt =====
-- The loop of `buildPDG` (DSWP_1.cpp) that fills `bb_ordered`.
use dswp_plus.Base.{
  ℕ, ◌≡◌, refl, ◌+◌, ◌<◌, ◌≤◌, Bool, true, false, some, List, [], ◌∷◌, ◌==◌, if◌then◌else◌, count,
  count-snoc, length, arith, Bool-cases, inl, inr, eq-of-==, ltb,
}
use dswp_plus.Search.{IsWalk, Run, done, old, new}
use dswp_plus.Search.Marks.{Run-seen, Run-inside, unseen-le}
use dswp_plus.Search.Total.{IsClosed, depth_first_total}
use dswp_plus.Build.Blocks.{Order, no_order, inside, blocks_walk, dfs_visit, order_blocks}

module _ (successors : ℕ → List ℕ) (contains : ℕ → Bool) (blocks : List ℕ)
    (law : (x : ℕ) → contains x ≡ true → 0 < count x blocks) where
  blocks-IsWalk : IsWalk (blocks_walk successors contains)
  blocks-IsWalk = record {
    seen_enter = λ v x s. refl;
    seen_again = λ v n x s. refl;
    seen_leave = λ v x s. refl;
  }

  inside_lem :
      (bs : List ℕ) (x : ℕ) → 0 < count x (inside successors contains bs) → 0 < count x blocks
  unfolding inside
  inside_lem [] x h = absurd (omega arith)
  inside_lem (b ∷ bs) x h = elim (Bool-cases (contains b)) [
    | inl e ↦ elim (Bool-cases (x == b)) [
      | inl q ↦ let q' = eq-of-== x b q in ground (arith, q', law b e)
      | inr q ↦ ground (arith, e, q, h, inside_lem bs x)
    ]
    | inr e ↦ ground (arith, e, h, inside_lem bs x)
  ]

  blocks-IsClosed : IsClosed blocks-IsWalk blocks
  blocks-IsClosed v n c d = inside_lem (successors v) n d

  Run-order :
      {v : ℕ} {ns : List ℕ} {s t : Order}
      → Run (blocks_walk successors contains) v ns s t
      → (x : ℕ)
      → count x t.ordered + (if s.visited x then 1 else 0)
        ≡ count x s.ordered + (if t.visited x then 1 else 0)
  Run-order done x = refl
  Run-order (old e r) x = Run-order r x
  Run-order (new {v} {n} {ns} {s} {t} {u} e r r') x = ground (
    arith,
    Run-order r x,
    Run-order r' x,
    count-snoc x n t.ordered,
    Run-seen blocks-IsWalk r n (ground arith),
  )

  -- What the loop does from `s`, over the blocks `bs`.
  record Visits (bs : List ℕ) (s t : Order) : Type 0 where
    pub kept : (x : ℕ) → s.visited x ≡ true → t.visited x ≡ true
    pub all : (x : ℕ) → 0 < count x bs → t.visited x ≡ true
    pub within : (x : ℕ) → s.visited x ≡ false → t.visited x ≡ true → 0 < count x blocks
    pub counts :
        (x : ℕ)
        → count x t.ordered + (if s.visited x then 1 else 0)
          ≡ count x s.ordered + (if t.visited x then 1 else 0)

  visit_one :
      (b : ℕ) (s t : Order)
      → 0 < count b blocks
      → s.visited b ≡ false
      → Run
          (blocks_walk successors contains)
          b
          (inside successors contains (successors b))
          ((blocks_walk successors contains).enter b s)
          t
      → Visits (b ∷ []) s ((blocks_walk successors contains).leave b t)
  visit_one b s t c e r = record {
    kept = λ y h. Run-seen blocks-IsWalk r y (ground arith);
    all = λ y h. Run-seen blocks-IsWalk r y (ground arith);
    within = λ y h k. elim (Bool-cases (b == y)) [
      | inl q ↦ let q' = eq-of-== b y q in ground arith
      | inr q ↦
          Run-inside blocks-IsWalk blocks r blocks-IsClosed (λ m d. blocks-IsClosed b m c d) y
            (ground arith) k
    ];
    counts = λ y.
        ground (
          arith,
          Run-order r y,
          count-snoc y b t.ordered,
          Run-seen blocks-IsWalk r b (ground arith),
        );
  }

  order_blocks_lem :
      (f : ℕ) (bs : List ℕ) (s : Order)
      → ((x : ℕ) → 0 < count x bs → 0 < count x blocks)
      → length blocks ≤ f
      → (t : Order) × (order_blocks successors contains f bs s ≡ some t) × Visits bs s t
  unfolding order_blocks dfs_visit
  order_blocks_lem f [] s i h = (
    s,
    refl,
    record {
      kept = λ x e. e;
      all = λ x c. absurd (omega arith);
      within = λ x a b. absurd (cc);
      counts = λ x. refl;
    },
  )
  order_blocks_lem f (b ∷ bs) s i h = elim (Bool-cases (s.visited b)) [
    | inl e ↦
        let (t, eq, p) = order_blocks_lem f bs s (λ y c. i y (omega arith)) h in
        (
          t,
          rw e eq,
          record {
            kept = p.kept;
            all = λ y c. ground (arith, p.all y, p.kept y);
            within = p.within;
            counts = p.counts;
          },
        )
    | inr e ↦
        let c : 0 < count b blocks = i b (ground arith) in
        let (t, eq, r) =
          depth_first_total blocks-IsWalk blocks blocks-IsClosed f b s c e
            (omega (arith, unseen-le s.visited blocks)) in
        let (u, eq', q) =
          order_blocks_lem f bs ((blocks_walk successors contains).leave b t)
            (λ y d. i y (omega arith)) h in
        let p = visit_one b s t c e r in
        (
          u,
          rw (e, eq) eq',
          record {
            kept = λ y k. q.kept y (p.kept y k);
            all = λ y k. ground (arith, q.all y, q.kept y, p.all y);
            within = λ y k l. ground (arith, q.within y, p.within y, q.kept y);
            counts = λ y. omega (arith, p.counts y, q.counts y);
          },
        )
  ]

  -- If what the loop contains is among its blocks, then with fuel for their number the loop that
  -- calls `dfsVisit` returns, and `bb_ordered` has every block of the loop once and nothing else.
  pub order_blocks_total :
      (f : ℕ)
      → length blocks ≤ f
      → (t : Order) × (order_blocks successors contains f blocks no_order ≡ some t)
        × ((x : ℕ) → count x t.ordered ≡ (if ltb 0 (count x blocks) then 1 else 0))
  order_blocks_total f h =
      let (t, eq, p) = order_blocks_lem f blocks no_order (λ x c. c) h in
      (t, eq, λ x. ground (arith, p.counts x, p.all x, p.within x))
