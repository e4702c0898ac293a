-- ===== src/Build/Blocks/Dummies/Peeling.antt =====
-- The peeled loop of DSWP_1.cpp as a whole, for the part of `buildPDG` that computes the control
-- dependences.
use mathlib.Core.List.{map, reverse}
use dswp_plus.Base.{
  ℕ, ◌≡◌, ◌≢◌, ◌↔◌, refl, sym, subst, ◌∙◌, ◌<◌, ◌≤◌, Bool, true, ◌&&◌, some, List, [], ◌∷◌,
  if◌then◌else◌, ltb, count, count-reverse, arith, inl, inr, length,
}
use dswp_plus.Build.Blocks.Ordered.{order_blocks_total}
use dswp_plus.Build.Blocks.Peel.{Dummy, top_half, bottom_half, exit_dummy, branches, instnum}
use dswp_plus.Build.Blocks.Dummies.{
  Tables, no_tables, LoopBlocks, halves, address, create_dummies, return_blocks, add_branches,
  real_of, peel_loop,
}
use dswp_plus.Build.Blocks.Dummies.Created.{AreFresh, IsHalf, create_dummies_lem, add_branches_lem}
use dswp_plus.Build.Blocks.Dummies.Targets.{
  precedes, return_blocks_lem, Inner, branches-Inner, branches_found, count-map,
}
use dswp_plus.Build.Control.{Peeled}
use dswp_plus.Build.Control.Covered.{IsPeeled}
use dswp_plus.Build.Control.PostDominators.{IsTree, nearest-steps}

module _ (c : LoopBlocks) where
  -- What LLVM knows of the loop: it contains its blocks and no other, and the instructions of a block
  -- with its terminator are among `insts`.
  pub record IsLoopOf (insts : List ℕ) : Type 0 where
    pub fresh : AreFresh c
    pub contained : (b : ℕ) → c.contains b ≡ true → 0 < count b c.blocks
    pub inside : (b x : ℕ) → 0 < count b c.blocks → 0 < count x (c.insts_of b) → 0 < count x insts
    pub ends : (b : ℕ) → 0 < count b c.blocks → 0 < count (c.terminator b) insts

  -- The peeled loop of the blocks: two halves of each, with the branches of Peel by a numbering of the
  -- blocks and for the blocks that may leave the loop.
  pub record IsPeeling (p : Peeled) (dummies : List ℕ) : Type 0 where
    pub halves : (n : ℕ) → (0 < count n dummies) ↔ ((b : ℕ) × (0 < count b c.blocks) × IsHalf c n b)
    pub real : (n b : ℕ) → 0 < count b c.blocks → IsHalf c n b → p.real n ≡ b
    pub order : List ℕ
    pub num : ℕ → ℕ
    pub returns : ℕ → Bool
    pub ordered : (b : ℕ) → count b order ≡ (if ltb 0 (count b c.blocks) then 1 else 0)
    pub numbers : (b : ℕ) → 0 < count b c.blocks → num b ≡ instnum order b
    pub leaves : (b : ℕ) → returns b ≡ (c.contains b && precedes c c.exits b)
    pub branch_top :
        (b : ℕ)
        → 0 < count b c.blocks
        → p.successors (c.top b)
          ≡ map (address c) (branches num c.contains returns c.successors (top_half b))
    pub branch_bottom :
        (b : ℕ)
        → 0 < count b c.blocks
        → p.successors (c.bottom b)
          ≡ map (address c) (branches num c.contains returns c.successors (bottom_half b))

  module _ (insts : List ℕ) (loop : IsLoopOf insts) (p : Peeled) (dummies : List ℕ)
      (exit_eq : p.exit_block ≡ c.exit_address) (q : IsPeeling p dummies) where
    half-not-exit : (n : ℕ) → 0 < count n dummies → n ≢ p.exit_block
    half-not-exit n h e =
        let (b, cb, half) = (q.halves n).0 h in
        elim half [
          | inl k ↦ loop.fresh.top_inner b (sym k ∙ e ∙ exit_eq)
          | inr k ↦ loop.fresh.bottom_inner b (sym k ∙ e ∙ exit_eq)
        ]

    half_listed :
        (n b : ℕ) → c.contains b ≡ true → IsHalf c n b → 0 < count n (p.exit_block ∷ dummies)
    half_listed n b h k = let m = (q.halves n).1 (b, loop.contained b h, k) in ground (arith, m)

    address_listed :
        (s : ℕ) (d : Dummy) → Inner c d → s ≡ address c d → 0 < count s (p.exit_block ∷ dummies)
    address_listed s (top_half b) i e = half_listed s b i (inl e)
    address_listed s (bottom_half b) i e = half_listed s b i (inr e)
    address_listed s exit_dummy i e =
        let e' : s ≡ p.exit_block = e ∙ sym exit_eq in ground (arith, e')

    branch_listed :
        (s : ℕ) (x : Dummy) (ss : List ℕ)
        → ss ≡ map (address c) (branches q.num c.contains q.returns c.successors x)
        → 0 < count s ss
        → 0 < count s (p.exit_block ∷ dummies)
    branch_listed s x ss e h =
        let (d, m, k) = count-map c s _ (subst (λ z. 0 < count s z) e h) in
        address_listed s d (branches-Inner c q.num q.returns x d m) k

    successor_listed :
        (n s : ℕ)
        → 0 < count n dummies
        → 0 < count s (p.successors n)
        → 0 < count s (p.exit_block ∷ dummies)
    successor_listed n s h k =
        let (b, cb, half) = (q.halves n).0 h in
        elim half [
          | inl e ↦
              branch_listed s (top_half b) (p.successors (c.top b)) (q.branch_top b cb)
                (subst (λ z. 0 < count s (p.successors z)) e k)
          | inr e ↦
              branch_listed s (bottom_half b) (p.successors (c.bottom b)) (q.branch_bottom b cb)
                (subst (λ z. 0 < count s (p.successors z)) e k)
        ]

    real_listed : (n : ℕ) → 0 < count n dummies → 0 < count (p.real n) c.blocks
    real_listed n h =
        let (b, cb, k) = (q.halves n).0 h in
        subst (λ z. 0 < count z c.blocks) (sym (q.real n b cb k)) cb

    -- What the climb needs of the peeled loop, from how it is built and from LLVM's tree.
    IsPeeling-IsPeeled :
        (depth : ℕ)
        → p.insts_of ≡ c.insts_of
        → p.terminator ≡ c.terminator
        → IsTree p (p.exit_block ∷ dummies) depth
        → IsPeeled p insts dummies depth
    IsPeeling-IsPeeled depth is ts tree = record {
      inside = λ n x h k.
          loop.inside (p.real n) x (real_listed n h) (subst (λ z. 0 < count x (z (p.real n))) is k);
      terminators = λ n h.
          subst (λ z. 0 < count (z (p.real n)) insts) (sym ts)
            (loop.ends (p.real n) (real_listed n h));
      closed = λ n h. tree.inside n (ground (arith, h)) (half-not-exit n h);
      targets = successor_listed;
      dominates =
          λ b s h k. nearest-steps p (p.exit_block ∷ dummies) depth tree b s (ground (arith, h)) k;
    }

  real_of_lem : (t : Tables) (n b : ℕ) → t.dummy_to_real n ≡ some b → real_of c t n ≡ b
  real_of_lem t n b e = rw (real_of, e) refl

  -- Let LLVM give the dummy blocks different addresses. With fuel for the number of the loop's blocks
  -- the peeled loop is made: `dummylist` has the two halves of each block and nothing else,
  -- `dummytoreal` leads each back to its block, and they have the branches of the two copies of an
  -- iteration, for blocks numbered from the end of `bb_ordered` on, which may leave the loop if they
  -- precede one of the exits. If LLVM's tree is that of the postdominators, then the loop of
  -- `buildPDG` that adds the control dependences has all that it needs.
  pub peel_loop-IsPeeling :
      (insts : List ℕ) (fuel : ℕ)
      → IsLoopOf insts
      → length c.blocks ≤ fuel
      → (p : Peeled) × (dummies : List ℕ) × (peel_loop c fuel ≡ some (p, dummies))
        × IsPeeling p dummies
        × ((depth : ℕ) → IsTree p (p.exit_block ∷ dummies) depth → IsPeeled p insts dummies depth)
  unfolding peel_loop
  peel_loop-IsPeeling insts fuel loop h =
      let (o, eq, counts) =
        order_blocks_total c.successors c.contains c.blocks loop.contained fuel h in
      let from_end : List ℕ = reverse o.ordered in
      let ordered : (b : ℕ) → count b from_end ≡ (if ltb 0 (count b c.blocks) then 1 else 0) =
        λ b. count-reverse b o.ordered ∙ counts b in
      let listed : (b : ℕ) → 0 < count b c.blocks → 0 < count b from_end =
        λ b k. ground (arith, k, ordered b) in
      let t : Tables = create_dummies c from_end no_tables in
      let made =
        create_dummies_lem c loop.fresh from_end no_tables (λ b. ground (arith, ordered b)) in
      let rs : List ℕ = return_blocks c c.exits [] in
      let halved : (b : ℕ) → 0 < count b from_end → halves t b ≡ (c.top b, c.bottom b) =
        λ b k. rw (halves, made.pairs b k) refl in
      let (branch, kept) = add_branches_lem c loop.fresh t rs from_end (λ _. []) halved in
      let same = λ (x : Dummy).
        branches_found c t t.inst_num (λ y. ltb 0 (count y rs)) x
          (λ b k. halved b (listed b (loop.contained b k))) in
      let m : ℕ → List ℕ = add_branches c t rs from_end (λ _. []) in
      let p : Peeled = record {
        successors = m;
        real = real_of c t;
        insts_of = c.insts_of;
        terminator = c.terminator;
        exit_block = c.exit_address;
        idom = (c.postdom m c.exit_address).0;
        nearest = (c.postdom m c.exit_address).1;
      } in
      let q : IsPeeling p t.dummy_list = record {
        halves = λ n. (
          λ k. elim ((made.listed n).0 k) [
            | inl old ↦ absurd (omega (arith, old))
            | inr (b, cb, e) ↦ (b, ground (arith, cb, ordered b), e)
          ],
          λ (b, cb, e). (made.listed n).1 (inr (b, listed b cb, e)),
        );
        real = λ n b cb e. elim e [
          | inl z ↦ rw z (real_of_lem t (c.top b) b (made.real b (listed b cb)).0)
          | inr z ↦ rw z (real_of_lem t (c.bottom b) b (made.real b (listed b cb)).1)
        ];
        order = from_end;
        num = t.inst_num;
        returns = λ x. ltb 0 (count x rs);
        ordered = ordered;
        numbers = λ b cb. omega (arith, made.num b (listed b cb));
        leaves = λ b. return_blocks_lem c c.exits [] b;
        branch_top = λ b cb. (branch b (listed b cb)).0 ∙ same (top_half b);
        branch_bottom = λ b cb. (branch b (listed b cb)).1 ∙ same (bottom_half b);
      } in
      (
        p,
        t.dummy_list,
        rw eq refl,
        q,
        λ depth tree. IsPeeling-IsPeeled insts loop p t.dummy_list refl q depth refl refl tree,
      )
