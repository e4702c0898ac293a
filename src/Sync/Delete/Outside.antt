-- ===== src/Sync/Delete/Outside.antt =====
-- What the deletion of the loop (DSWP_5.cpp) leaves of the function, behind `getLiveinfo` and
-- `preLoopSplit` (DSWP_4.cpp).
use dswp_plus.Base.{
  ℕ, ◌≡◌, ◌≢◌, refl, sym, ap, subst, ◌∙◌, ◌<◌, Bool, true, false, ◌||◌, some, List, [], ◌∷◌, ltb,
  count, arith, Bool-cases, inl, inr,
}
use dswp_plus.Split.Liveness.{Values, LiveInfo, get_liveinfo}
use dswp_plus.Split.Pre.{outside_operands, redirect_all, has_block, sanity_checks}
use dswp_plus.Split.Pre.Outside.{AreUses, AreLoads, outside_operands-AreLoads}
use dswp_plus.Sync.Delete.{Code, erase_bodies, delete_loop}
use dswp_plus.Sync.Delete.Erased.{body, erase_bodies-Erases, erase_blocks_lem}
use dswp_plus.Sync.Delete.Redirected.{redirect_all-le, redirect_all-gone}

has_block-count : (new : ℕ) (bs : List ℕ) → has_block new bs ≡ false → count new bs ≡ 0
unfolding has_block
has_block-count new [] h = refl
has_block-count new (b ∷ bs) h = ground (arith, h, has_block-count new bs)

sanity_checks-count :
    (contains : ℕ → Bool) (exit new : ℕ) (bs : List ℕ)
    → sanity_checks contains exit new bs ≡ true
    → count new bs ≡ 0
unfolding sanity_checks
sanity_checks-count contains exit new bs h = has_block-count new bs (ground (arith, h))

-- The loop in its function: the header is the only block that is entered from outside, from the blocks
-- of `preds`, and the sanity checks of `preLoopSplit` do not end in `error`.
pub record IsEntered (insts blocks preds : List ℕ) (header exit new : ℕ) (v : Values)
    (contains : ℕ → Bool) (targets : ℕ → List ℕ) : Type 0 where
  pub outside : (y : ℕ) → v.contains y ≡ false → count y insts ≡ 0
  pub enters :
      (p b : ℕ)
      → contains p ≡ false
      → 0 < count b blocks
      → 0 < count b (targets p)
      → (b ≡ header) × (0 < count p preds)
  pub checked : sanity_checks contains exit new blocks ≡ true

module _ (v : Values) (insts : List ℕ) (load : ℕ → ℕ)
    (fresh : (k : ℕ) → count (load k) insts ≡ 0) where
  other : (x n : ℕ) → count n insts ≡ 0 → 0 < count x insts → x ≢ n
  other x n c h e =
      let h' : 0 < count n insts = subst (λ z. 0 < count z insts) e h in omega (arith, c, h')

  AreLoads-count :
      (liveout ops news : List ℕ)
      → AreLoads v insts load liveout ops news
      → (x : ℕ) → 0 < count x insts
      → count x news ≡ 0
  AreLoads-count liveout [] [] p x h = refl
  AreLoads-count liveout [] (n ∷ news) p x h = absurd p
  AreLoads-count liveout (o ∷ ops) [] p x h = absurd p
  AreLoads-count liveout (o ∷ ops) (n ∷ news) (inl (c, k, e, holds), p) x h =
      let f = fresh k in
      let f' : count n insts ≡ 0 = subst (λ z. count z insts ≡ 0) (sym e) f in
      ground (arith, AreLoads-count liveout ops news p x h, f', h, other x n f' h)
  AreLoads-count liveout (o ∷ ops) (n ∷ news) (inr (c, e), p) x h =
      let f' : count n insts ≡ 0 = subst (λ z. count z insts ≡ 0) (sym e) c in
      ground (arith, AreLoads-count liveout ops news p x h, other x n f' h)

module _ (v : Values) (insts_of : ℕ → List ℕ) (blocks preds : List ℕ) (header exit new : ℕ)
    (contains : ℕ → Bool) (targets : ℕ → List ℕ) (load undef : ℕ → ℕ) where
  -- The function behind `preLoopSplit`.
  abbrev pub before : LiveInfo → Code
  before l = record {
    operands = outside_operands load l.liveout v.contains v.operands;
    targets = redirect_all contains header new preds targets;
    inst_erased = λ _. false;
    block_erased = λ _. false;
  }

  -- What is left when the loop is deleted.
  pub record IsDeleted (l : LiveInfo) (s : Code) : Type 0 where
    pub insts : (x : ℕ) → s.inst_erased x ≡ ltb 0 (count x (body insts_of blocks))
    pub blocks_gone : (b : ℕ) → s.block_erased b ≡ ltb 0 (count b blocks)
    pub loads :
        (y : ℕ)
        → v.contains y ≡ false
        → AreLoads v (body insts_of blocks) load l.liveout (v.operands y) (s.operands y)
    pub unused :
        (x y : ℕ) → s.inst_erased x ≡ true → v.contains y ≡ false → count x (s.operands y) ≡ 0
    pub unreached :
        (b p : ℕ) → s.block_erased b ≡ true → contains p ≡ false → count b (s.targets p) ≡ 0

  not_entered :
      IsEntered (body insts_of blocks) blocks preds header exit new v contains targets
      → (b p : ℕ) → contains p ≡ false
      → 0 < count b blocks
      → count b (redirect_all contains header new preds targets p) ≡ 0
  not_entered entered b p out c =
      let le = redirect_all-le contains header new preds targets p b (not_new entered b c) in
      elim (Bool-cases (ltb 0 (count b (targets p)))) [
        | inl e ↦
            let (at, among) = entered.enters p b out c (ground (arith, e)) in
            let ne = not_new entered header (subst (λ z. 0 < count z blocks) at c) in
            subst (λ z. count z (redirect_all contains header new preds targets p) ≡ 0) (sym at)
              (redirect_all-gone contains header new preds targets p ne out among)
        | inr e ↦ ground (arith, le, e)
      ]
    where
      not_new :
          IsEntered (body insts_of blocks) blocks preds header exit new v contains targets
          → (b : ℕ) → 0 < count b blocks
          → b ≢ new
      not_new ent z h e =
          let h' : 0 < count new blocks = subst (λ x. 0 < count x blocks) e h in
          omega (arith, sanity_checks-count contains exit new blocks ent.checked, h')

  -- Let every use of the loop's instructions be by an instruction, let LLVM list each user among
  -- the uses, let only the header be entered from outside the loop, let the sanity checks be
  -- passed, and let the loads of the new block be no instructions of the loop. Behind
  -- `getLiveinfo`, `preLoopSplit` and the deletion of the loop all its instructions and blocks are
  -- erased and nothing else. No instruction outside has one of them as an operand, no block
  -- outside branches to one of them, and no operand outside has become undefined: each is as it
  -- was, or the load of the result of the instruction of the loop that stood there.
  pub delete_loop-IsDeleted :
      AreUses v (body insts_of blocks) load
      → ((k : ℕ) → count (load k) (body insts_of blocks) ≡ 0)
      → IsEntered (body insts_of blocks) blocks preds header exit new v contains targets
      → (l : LiveInfo) × (get_liveinfo v (body insts_of blocks) ≡ some l)
        × IsDeleted l (delete_loop undef insts_of blocks (before l))
  unfolding delete_loop
  delete_loop-IsDeleted uses fresh entered =
      let xs : List ℕ = body insts_of blocks in
      let (l, eq, loads) = outside_operands-AreLoads v xs load uses in
      let p = erase_bodies-Erases undef insts_of blocks (before l) in
      let (gone, ops, tgts, marks) =
        erase_blocks_lem undef blocks (erase_bodies undef insts_of blocks (before l)) in
      let same : (y : ℕ)
          → v.contains y ≡ false
          → (delete_loop undef insts_of blocks (before l)).operands y ≡ (before l).operands y =
        λ y out.
          ap (λ (m : ℕ → List ℕ). m y) ops
          ∙ p.kept y (λ x c.
            AreLoads-count v xs load fresh l.liveout (v.operands y) _ (loads y out) x c) in
      let erased : (x : ℕ)
          → (delete_loop undef insts_of blocks (before l)).inst_erased x ≡ ltb 0 (count x xs) =
        λ x. ap (λ (m : ℕ → Bool). m x) marks ∙ p.erased x in
      let erased_block : (b : ℕ)
          → (delete_loop undef insts_of blocks (before l)).block_erased b ≡ ltb 0 (count b blocks) =
        λ b. gone b ∙ ap (λ (m : ℕ → Bool). m b || ltb 0 (count b blocks)) p.blocks in
      (
        l,
        eq,
        record {
          insts = erased;
          blocks_gone = erased_block;
          loads = λ y out.
              subst (AreLoads v xs load l.liveout (v.operands y)) (sym (same y out)) (loads y out);
          unused = λ x y gone_x out.
              ap (count x) (same y out)
              ∙ AreLoads-count v xs load fresh l.liveout (v.operands y) _ (loads y out) x
                  (ground (arith, erased x, gone_x));
          unreached = λ b p_block gone_b out.
              ap (λ (m : ℕ → List ℕ). count b (m p_block)) (tgts ∙ p.targets)
              ∙ not_entered entered b p_block out (ground (arith, erased_block b, gone_b));
        },
      )
