-- ===== src/Split/Code/Tests.antt =====
-- The second thread's copy of a loop of one block, 5, between the blocks 4 and 9.
use dswp_plus.Base.{
  ℕ, ◌≡◌, refl, ◌<◌, ◌≤◌, true, false, Option, none, some, [], ◌∷◌, ◌==◌, if◌then◌else◌, ltb, count,
  arith, ◌↔◌, ◌⊎◌, ◌+◌, ◌-◌, ℤ, pos, eq-of-==, subst, sym,
}
use dswp_plus.Base.Result.{ok, exits}
use dswp_plus.Pdg.{Pdg, no_edges, add_edge, reg}
use dswp_plus.Split.Code.Relevant.{
  relevant_blocks, IsAscending, IsRelevant, relevant_blocks-IsRelevant,
}
use dswp_plus.Split.Code.Target.{climb, Cfg, NewInst, new_inst}
use dswp_plus.Split.Code.Target.Nearest.{
  IsNearest, IsBare, root, under, IsTree, climb-IsNearest, nth, target_at, new_inst-IsNearest,
  IsPointable, ArePlaced, new_inst_total,
}
use dswp_plus.Split.Code.Copy.{Copies, keeps, copy_blocks}
use dswp_plus.Split.Code.Copy.Next.{Ends}
use dswp_plus.Split.Code.Copy.Thread.{no_copies, IsCode, Follows, copy_blocks-placed}

-- The block 5 has the instruction 0 of the first thread, 1 of the second, which uses it, and the
-- terminator 2, back to the block or out of the loop. Any other instruction `x` is in block `x + 10`.
abbrev pub sample_cfg : Cfg
sample_cfg = record {
  is_term = λ x. x == 2;
  is_phi = λ x. false;
  is_invoke = λ x. false;
  successors = λ x. if x == 2 then 5 ∷ 9 ∷ [] else [];
  incoming = λ x. [];
  insts_of = λ b. if b == 5 then 0 ∷ 1 ∷ 2 ∷ [] else if ltb 12 b then (b - 10) ∷ [] else [];
  contains = λ b. b == 5;
  exit = 9;
  idom = λ b. if b == 9 then some 5 else if b == 5 then some 4 else none;
  postidom = λ b. if b == 4 then some 5 else if b == 5 then some 9 else none;
}

abbrev pub sample_parent : ℕ → ℕ
sample_parent x = if ltb x 3 then 5 else x + 10

unfoldable pub sample_graph : Pdg
unfolding add_edge
sample_graph = add_edge 0 1 reg no_edges

abbrev pub sample_thread : ℕ → ℤ
sample_thread x = if x == 1 then pos 1 else pos 0

-- The copies of the blocks: the first block is 100, the last 109.
abbrev pub sample_map : ℕ → Option ℕ
sample_map b =
    if b == 5 then some 105 else if b == 4 then some 100 else if b == 9 then some 109 else none

pub sample_post : IsTree sample_cfg.postidom 3
sample_post = record {
  height = λ b. if b == 4 then 2 else if b == 5 then 1 else 0;
  low = λ b. ground arith;
  rises = λ b p e. ground arith;
}

pub sample_dom : IsTree sample_cfg.idom 3
sample_dom = record {
  height = λ b. if b == 9 then 2 else if b == 5 then 1 else 0;
  low = λ b. ground arith;
  rises = λ b p e. ground arith;
}

relevant_blocks-IsRelevant_example :
    let rel = relevant_blocks sample_parent sample_graph ((1 ∷ []) ∷ (0 ∷ []) ∷ []) (0 ∷ []) [] in
    IsAscending rel
    × ((b : ℕ)
        → (0 < count b rel)
          ↔ IsRelevant sample_parent sample_graph ((1 ∷ []) ∷ (0 ∷ []) ∷ []) (0 ∷ []) b)
relevant_blocks-IsRelevant_example =
    relevant_blocks-IsRelevant sample_parent sample_graph ((1 ∷ []) ∷ (0 ∷ []) ∷ []) (0 ∷ [])

-- Without the block 5 the climb from it gets to 9.
climb-IsNearest_example :
    ((n : ℕ) × (climb 3 (λ b. if b == 9 then some 109 else none) sample_cfg.postidom 4 ≡ ok n)
      × IsNearest (λ b. if b == 9 then some 109 else none) sample_cfg.postidom 4 n)
    ⊎ ((climb 3 (λ b. if b == 9 then some 109 else none) sample_cfg.postidom 4 ≡ exits)
        × IsBare (λ b. if b == 9 then some 109 else none) sample_cfg.postidom 4)
climb-IsNearest_example =
    climb-IsNearest (λ b. if b == 9 then some 109 else none) sample_cfg.postidom 3 sample_post 3 4
      (omega arith)

pub not-IsBare : (m : ℕ → Option ℕ) (b n : ℕ) → m b ≡ some n → ¬ IsBare m sample_cfg.postidom b
not-IsBare m b n e (root h u) = absurd (cc)
not-IsBare m b n e (under h u bare) = absurd (cc)

new_inst-IsNearest_example :
    (new : NewInst) × (new_inst sample_cfg 3 sample_map 2 ≡ ok new)
    × ((i b : ℕ)
        → nth (5 ∷ 9 ∷ []) i ≡ some b
        → (n : ℕ) × (target_at new i ≡ some n) × IsNearest sample_map sample_cfg.postidom b n)
new_inst-IsNearest_example =
    new_inst-IsNearest sample_cfg 3 3 sample_map (omega arith) sample_post 2 refl
      (refl, not-IsBare sample_map 5 105 refl, (refl, not-IsBare sample_map 9 109 refl, tt))

-- The instructions of a block are those that have it as their parent.
sample_owns : (b x : ℕ) → (0 < count x (sample_cfg.insts_of b)) ↔ (sample_parent x ≡ b)
sample_owns b x = (λ h. ground arith, λ h. ground arith)

module _ (m : ℕ → Option ℕ) where
  pub sample-IsCode :
      (thread : ℕ → ℤ) (i : ℕ) (copy : ℕ → ℕ)
      → IsCode sample_cfg 3 m thread i copy sample_parent (5 ∷ [])
  sample-IsCode thread i copy = record {
    owns = sample_owns;
    ends = λ b h.
        let e : 5 ≡ b = ground arith in
        subst (λ d. Ends sample_cfg.is_term [] (sample_cfg.insts_of d)) e refl;
  }

  module _ (n n' : ℕ) (e : m 5 ≡ some n) (e' : m 9 ≡ some n') where
    pub sample-IsPointable : (enough : 3 ≤ 3) (x : ℕ) → IsPointable sample_cfg 3 3 m enough x
    sample-IsPointable enough x = record {
      branches = λ t.
          subst (λ y. ArePlaced sample_cfg 3 3 m enough (sample_cfg.successors y))
            (sym (eq-of-== x 2 t)) (refl, not-IsBare m 5 n e, (refl, not-IsBare m 9 n' e', tt));
      arrives = λ t. absurd (cc);
    }

-- The second thread gets 1 and 2, and 0 has its place at the copy of 1.
copy_blocks-placed_example :
    (t : Copies) × (copy_blocks sample_cfg 3 sample_map sample_thread 1
        (λ x. x + 20)
        (λ b. b + 100)
        (5 ∷ [])
        no_copies
      ≡ ok t)
    × ((x : ℕ)
        → 0 < count (sample_parent x) (5 ∷ [])
        → keeps sample_cfg 3 sample_map sample_thread 1 (λ x. x + 20) x ≡ true
        → t.inst_map x ≡ some (x + 20))
    × ((x n : ℕ)
        → t.inst_map x ≡ some n
        → (keeps sample_cfg 3 sample_map sample_thread 1 (λ x. x + 20) x ≡ true) × (n ≡ x + 20))
    × ((x : ℕ)
        → 0 < count (sample_parent x) (5 ∷ [])
        → keeps sample_cfg 3 sample_map sample_thread 1 (λ x. x + 20) x ≡ false
        → (y : ℕ) × Follows sample_cfg 3 sample_map sample_thread 1 (λ x. x + 20) x y
          × (t.places x ≡ some (y + 20)))
    × ((x n : ℕ)
        → t.places x ≡ some n
        → (y : ℕ) × Follows sample_cfg 3 sample_map sample_thread 1 (λ x. x + 20) x y
          × (n ≡ y + 20))
    × ((x : ℕ)
        → 0 < count (sample_parent x) (5 ∷ [])
        → keeps sample_cfg 3 sample_map sample_thread 1 (λ x. x + 20) x ≡ true
        → (y : ℕ) × (t.new_to_old (x + 20) ≡ some y))
    × ((n y : ℕ)
        → t.new_to_old n ≡ some y
        → (keeps sample_cfg 3 sample_map sample_thread 1 (λ x. x + 20) y ≡ true) × (n ≡ y + 20))
copy_blocks-placed_example =
    copy_blocks-placed sample_cfg 3 sample_map sample_thread 1 (λ x. x + 20) sample_parent
      (λ b. b + 100) (5 ∷ []) (sample-IsCode sample_map sample_thread 1 (λ x. x + 20))
      (λ x c k.
        new_inst_total sample_cfg 3 3 sample_map (omega arith) sample_post sample_dom x
          (sample-IsPointable sample_map 105 109 refl refl (omega arith) x))
