-- ===== src/Build/Control/PostDominators.antt =====
-- Postdominance in the peeled loop of DSWP_1.cpp, by paths, and the tree in which the code climbs.
use dswp_plus.Base.{List, ℕ, suc, ◌≡◌, ◌≢◌, ◌↔◌, refl, sym, subst, ◌∙◌, ◌<◌, ◌≤◌, count, arith}
use dswp_plus.Build.Control.{Peeled}
use dswp_plus.Build.Control.Covered.{above, Meets}

module _ (p : Peeled) where
  -- A path from the block to the exit that does not go through `n`.
  pub data Avoids (n : ℕ) : ℕ → Type 0 where
    stop : {s : ℕ} → s ≡ p.exit_block → s ≢ n → Avoids n s
    go : {s y : ℕ} → s ≢ n → 0 < count y (p.successors s) → Avoids n y → Avoids n s

  -- Every path from `s` to the exit goes through `n`.
  abbrev pub Postdominates : ℕ → ℕ → Type 0
  Postdominates n s = ¬ Avoids n s

  -- In the tree `n` is `s` or stands above it. The root is the exit.
  pub data Above (n : ℕ) : ℕ → Type 0 where
    same : {s : ℕ} → s ≡ n → Above n s
    up : {s : ℕ} → s ≢ p.exit_block → Above n (p.idom s) → Above n s

  -- LLVM's `PostDominatorTree` for a function with the blocks `nodes`, from each of which there is a
  -- path to the exit: what stands above a block are its postdominators, and
  -- `findNearestCommonDominator` gives the lowest block above both. The heights are of a number of
  -- blocks; what stands for no block may have any.
  pub record IsTree (nodes : List ℕ) (depth : ℕ) : Type 0 where
    pub height : ℕ → ℕ
    pub low : (s : ℕ) → height s ≤ depth
    pub rises : (s : ℕ) → s ≢ p.exit_block → height (p.idom s) < height s
    pub inside : (s : ℕ) → 0 < count s nodes → s ≢ p.exit_block → 0 < count (p.idom s) nodes
    pub above_is : (n s : ℕ) → 0 < count s nodes → Above n s ↔ Postdominates n s
    pub first : (b s : ℕ) → 0 < count b nodes → 0 < count s nodes → Above (p.nearest b s) b
    pub second : (b s : ℕ) → 0 < count b nodes → 0 < count s nodes → Above (p.nearest b s) s
    pub lowest :
        (b s n : ℕ)
        → 0 < count b nodes
        → 0 < count s nodes
        → Above n b
        → Above n s
        → Above n (p.nearest b s)

  Above-trans : {m n s : ℕ} → Above m n → Above n s → Above m s
  Above-trans {m} a (Above.same e) = subst (Above m) (sym e) a
  Above-trans a (Above.up ne b) = Above.up ne (Above-trans a b)

  module _ (nodes : List ℕ) (depth : ℕ) (tree : IsTree nodes depth) where
    Above-height : {n s : ℕ} → Above n s → tree.height n ≤ tree.height s
    Above-height {n} {s} (Above.same e) =
        subst (λ z. tree.height n ≤ tree.height z) (sym e) (omega arith)
    Above-height {n} {s} (Above.up ne a) = omega (arith, Above-height a, tree.rises s ne)

    -- The steps up to a block above.
    Above-steps : {n s : ℕ} → Above n s → (k : ℕ) × (k ≤ tree.height s) × (above p k s ≡ n)
    Above-steps (Above.same e) = (0, omega arith, e)
    Above-steps {n} {s} (Above.up ne a) =
        let (k, low, e) = Above-steps a in (suc k, omega (arith, low, tree.rises s ne), e)

    -- `nearest` is met within `depth` steps.
    pub nearest-steps :
        (b s : ℕ)
        → 0 < count b nodes
        → 0 < count s nodes
        → (k : ℕ) × (k ≤ depth) × (above p k s ≡ p.nearest b s)
    nearest-steps b s cb cs =
        let (k, low, e) = Above-steps (tree.second b s cb cs) in
        (k, omega (arith, low, tree.low s), e)

    Meets-Above : {dn s n : ℕ} → Meets p dn s n → Above n s
    Meets-Above (Meets.here a b) = Above.same refl
    Meets-Above (Meets.up a b m) = Above.up b (Meets-Above m)

    -- What is met in the climb to `dn` stands below it.
    Meets-below : {dn s n : ℕ} → Meets p dn s n → Above dn s → tree.height dn < tree.height n
    Meets-below {dn} {s} (Meets.here a b) (Above.same e) = absurd (a e)
    Meets-below {dn} {s} (Meets.here a b) (Above.up ne d) =
        omega (arith, Above-height d, tree.rises s ne)
    Meets-below (Meets.up a b m) (Above.same e) = absurd (a e)
    Meets-below (Meets.up a b m) (Above.up ne d) = Meets-below m d

    Meets-not-exit : {dn s n : ℕ} → Meets p dn s n → n ≢ p.exit_block
    Meets-not-exit (Meets.here a b) = b
    Meets-not-exit (Meets.up a b m) = Meets-not-exit m

    Above-exit : {n s : ℕ} → s ≡ p.exit_block → Above n s → n ≡ p.exit_block
    Above-exit e (Above.same h) = sym h ∙ e
    Above-exit e (Above.up ne a) = absurd (ne e)

    climb-Meets :
        {n s : ℕ} (b dn : ℕ)
        → Above dn b
        → (¬ Above n b)
        → n ≢ p.exit_block
        → Above n s
        → Meets p dn s n
    climb-Meets {n} {s} b dn d nb ne (Above.same e) =
        subst (λ z. Meets p dn z n) (sym e)
          (Meets.here (λ h. nb (subst (λ z. Above z b) (sym h) d)) ne)
    climb-Meets {n} {s} b dn d nb ne (Above.up nx a) =
        Meets.up (λ h. nb (Above-trans (subst (Above n) h (Above.up nx a)) d)) nx
          (climb-Meets b dn d nb ne a)

    -- The climb of the code from `s` to the nearest common postdominator of `b` and `s` meets exactly
    -- the blocks that postdominate `s` but not `b`, but for the exit.
    pub Meets-Postdominates :
        (b s n : ℕ)
        → 0 < count b nodes
        → 0 < count s nodes
        → Meets p (p.nearest b s) s n
          ↔ ((n ≢ p.exit_block) × Postdominates n s × (¬ Postdominates n b))
    Meets-Postdominates b s n cb cs = (
      λ m. (
        Meets-not-exit m,
        (tree.above_is n s cs).0 (Meets-Above m),
        λ q.
            let top = tree.lowest b s n cb cs ((tree.above_is n b cb).1 q) (Meets-Above m) in
            omega (arith, Above-height top, Meets-below m (tree.second b s cb cs)),
      ),
      λ (ne, ps, pb).
          climb-Meets b (p.nearest b s) (tree.first b s cb cs)
            (λ a. pb ((tree.above_is n b cb).0 a)) ne ((tree.above_is n s cs).1 ps),
    )
