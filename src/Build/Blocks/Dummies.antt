-- ===== src/Build/Blocks/Dummies.antt =====
-- The dummy blocks of `buildPDG` (DSWP_1.cpp): their creation with the look-up tables, the blocks from
-- which the loop may be left, and the branches. Together they are the peeled loop.
pub mod Created
pub mod Targets
pub mod Peeling
use mathlib.Core.List.{map, reverse}
use dswp_plus.Base.{
  ℕ, ◌+◌, Bool, true, false, Option, none, some, List, [], ◌∷◌, ◌++◌, ◌==◌, if◌then◌else◌, update,
  ◌>>=◌, ltb, count,
}
use dswp_plus.Build.Blocks.{Order, no_order, order_blocks}
use dswp_plus.Build.Blocks.Peel.{Dummy, top_half, bottom_half, exit_dummy, branches}
use dswp_plus.Build.Control.{Peeled}

-- `dummylist`, `realtodummy`, `dummytoreal` and `instnum`, and the counter `i`.
pub record Tables : Type 0 where
  pub dummy_list : List ℕ
  pub real_to_dummy : ℕ → Option (ℕ × ℕ)
  pub dummy_to_real : ℕ → Option ℕ
  pub inst_num : ℕ → ℕ
  pub number : ℕ

abbrev pub no_tables : Tables
no_tables = record {
  dummy_list = [];
  real_to_dummy = λ _. none;
  dummy_to_real = λ _. none;
  inst_num = λ _. 0;
  number = 0;
}

-- What LLVM tells of the loop, and the addresses that it gives to the dummy blocks. `postdom` is its
-- postdominator analysis: for the successors of each block of a function and the exit, `getIDom` and
-- `findNearestCommonDominator`.
pub record LoopBlocks : Type 0 where
  pub blocks : List ℕ
  pub contains : ℕ → Bool
  pub successors : ℕ → List ℕ
  pub predecessors : ℕ → List ℕ
  pub exits : List ℕ
  pub insts_of : ℕ → List ℕ
  pub terminator : ℕ → ℕ
  pub top : ℕ → ℕ
  pub bottom : ℕ → ℕ
  pub exit_address : ℕ
  pub postdom : (ℕ → List ℕ) → ℕ → (ℕ → ℕ) × (ℕ → ℕ → ℕ)

-- `realtodummy[b]`; an absent entry is made there with null pointers.
abbrev pub halves : Tables → ℕ → ℕ × ℕ
halves t b = elim (t.real_to_dummy b) [ none ↦ (0, 0) | some p ↦ p ]

module _ (c : LoopBlocks) where
  abbrev pub address : Dummy → ℕ
  address (top_half b) = c.top b
  address (bottom_half b) = c.bottom b
  address exit_dummy = c.exit_address

  -- The body of the loop that creates the dummy blocks.
  unfoldable pub create_dummy : ℕ → Tables → Tables
  create_dummy b t = record {
    dummy_list = (t.dummy_list ++ (c.top b ∷ [])) ++ (c.bottom b ∷ []);
    real_to_dummy = update t.real_to_dummy b (some (c.top b, c.bottom b));
    dummy_to_real = update (update t.dummy_to_real (c.top b) (some b)) (c.bottom b) (some b);
    inst_num = update t.inst_num b t.number;
    number = t.number + 1;
  }

  unfoldable pub create_dummies : List ℕ → Tables → Tables
  unfolding create_dummy
  create_dummies [] t = t
  create_dummies (b ∷ bs) t = create_dummies bs (create_dummy b t)

  -- The loop over the predecessors of a block behind the loop.
  unfoldable pub add_returns : List ℕ → List ℕ → List ℕ
  add_returns [] rs = rs
  add_returns (b ∷ bs) rs =
      add_returns bs
        (if c.contains b then (if ltb 0 (count b rs) then rs else rs ++ (b ∷ [])) else rs)

  -- The loop over `bb_exits`.
  unfoldable pub return_blocks : List ℕ → List ℕ → List ℕ
  unfolding add_returns
  return_blocks [] rs = rs
  return_blocks (e ∷ es) rs = return_blocks es (add_returns (c.predecessors e) rs)

  -- The block that a branch is given: by `realtodummy`, or `dummyexitblock`.
  abbrev pub found : Tables → Dummy → ℕ
  found t (top_half b) = (halves t b).0
  found t (bottom_half b) = (halves t b).1
  found t exit_dummy = c.exit_address

  -- The loop that adds the branches: the successors of the dummy blocks.
  unfoldable pub add_branches : Tables → List ℕ → List ℕ → (ℕ → List ℕ) → ℕ → List ℕ
  unfolding branches
  add_branches t rs [] m = m
  add_branches t rs (b ∷ bs) m =
      let (bbdummy1, bbdummy2) = halves t b in
      let targets = λ (d : Dummy).
        map (found t) (branches t.inst_num c.contains (λ x. ltb 0 (count x rs)) c.successors d) in
      add_branches t rs bs
        (update (update m bbdummy1 (targets (top_half b))) bbdummy2 (targets (bottom_half b)))

  -- An entry of `dummytoreal`; the code reads none that is absent.
  abbrev pub real_of : Tables → ℕ → ℕ
  real_of t n = elim (t.dummy_to_real n) [ none ↦ 0 | some b ↦ b ]

  -- From the order of the blocks to the analysis of the dummy function, with `dummylist`.
  unfoldable pub peel_loop : ℕ → Option (Peeled × List ℕ)
  unfolding order_blocks create_dummies return_blocks add_branches
  peel_loop fuel = order_blocks c.successors c.contains fuel c.blocks no_order >>= λ o.
      let from_end = reverse o.ordered in
      let t = create_dummies from_end no_tables in
      let m = add_branches t (return_blocks c.exits []) from_end (λ _. []) in
      some (
        record {
          successors = m;
          real = real_of t;
          insts_of = c.insts_of;
          terminator = c.terminator;
          exit_block = c.exit_address;
          idom = (c.postdom m c.exit_address).0;
          nearest = (c.postdom m c.exit_address).1;
        },
        t.dummy_list,
      )
