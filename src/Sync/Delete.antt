-- ===== src/Sync/Delete.antt =====
-- The deletion of the loop at the end of `DSWP::cleanup` (DSWP_5.cpp).
pub mod Erased
pub mod Redirected
pub mod Outside
mod Tests
use dswp_plus.Base.{ℕ, Bool, true, List, [], ◌∷◌, ◌++◌, update}
use dswp_plus.Split.Uses.{replace_uses}
use dswp_plus.Sync.Uses.{entry}

-- The function of the loop: the operands of its instructions, where the blocks branch to, and what is
-- erased.
pub record Code : Type 0 where
  pub operands : ℕ → List ℕ
  pub targets : ℕ → List ℕ
  pub inst_erased : ℕ → Bool
  pub block_erased : ℕ → Bool

-- `undef` is `UndefValue::get` for the type of the instruction.
module _ (undef : ℕ → ℕ) where
  -- `replaceAllUsesWith` and `eraseFromParent` for each instruction of a block.
  unfoldable pub erase_insts : List ℕ → Code → Code
  unfolding replace_uses
  erase_insts [] s = s
  erase_insts (x ∷ xs) s = erase_insts xs (record s {
    operands = λ y. replace_uses (entry x (undef x)) (s.operands y);
    inst_erased = update s.inst_erased x true;
  })

  -- The first loop over the blocks.
  unfoldable pub erase_bodies : (ℕ → List ℕ) → List ℕ → Code → Code
  unfolding erase_insts
  erase_bodies insts_of [] s = s
  erase_bodies insts_of (b ∷ bs) s = erase_bodies insts_of bs (erase_insts (insts_of b) s)

  -- The second loop over the blocks.
  unfoldable pub erase_blocks : List ℕ → Code → Code
  erase_blocks [] s = s
  erase_blocks (b ∷ bs) s =
      erase_blocks bs (record s { block_erased = update s.block_erased b true })

  unfoldable pub delete_loop : (ℕ → List ℕ) → List ℕ → Code → Code
  unfolding erase_bodies erase_blocks
  delete_loop insts_of blocks s = erase_blocks blocks (erase_bodies insts_of blocks s)
