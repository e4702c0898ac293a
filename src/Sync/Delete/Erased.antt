-- ===== src/Sync/Delete/Erased.antt =====
-- The loops of DSWP_5.cpp that erase the instructions and the blocks.
use dswp_plus.Base.{
  ℕ, ◌≡◌, refl, ap, ap₂, ◌∙◌, ◌+◌, ◌<◌, Bool, true, ◌||◌, List, [], ◌∷◌, ◌++◌, ◌==◌, if◌then◌else◌,
  update, ltb, count, arith, Bool-cases, inl, inr,
}
use dswp_plus.Split.Uses.{replace_uses}
use dswp_plus.Sync.Uses.{entry}
use dswp_plus.Sync.Uses.Renamed.{replaced_other}
use dswp_plus.Sync.Delete.{Code, erase_insts, erase_bodies, erase_blocks}

-- The instructions of the blocks.
abbrev pub body : (ℕ → List ℕ) → List ℕ → List ℕ
body insts_of [] = []
body insts_of (b ∷ bs) = insts_of b ++ body insts_of bs

count-append : (x : ℕ) (xs ys : List ℕ) → count x (xs ++ ys) ≡ count x xs + count x ys
count-append x [] ys = omega arith
count-append x (z ∷ xs) ys = omega (arith, count-append x xs ys)

update_or :
    (m : ℕ → Bool) (x z n : ℕ)
    → (update m x true z || ltb 0 n) ≡ (m z || ltb 0 ((if z == x then 1 else 0) + n))
update_or m x z n = elim (Bool-cases (x == z)) [
  | inl e ↦ rw e (ground (arith, e))
  | inr e ↦ rw e (ground (arith, e))
]

replace_uses-same :
    (old new : ℕ) (ops : List ℕ) → count old ops ≡ 0 → replace_uses (entry old new) ops ≡ ops
unfolding replace_uses
replace_uses-same old new [] h = refl
replace_uses-same old new (o ∷ ops) h =
    ap₂ (λ x xs. x ∷ xs) (replaced_other old new o (ground (arith, h)))
      (replace_uses-same old new ops (ground (arith, h)))

module _ (undef : ℕ → ℕ) where
  -- What is erased, and the operands without any of it.
  pub record Erases (xs : List ℕ) (s t : Code) : Type 0 where
    pub erased : (x : ℕ) → t.inst_erased x ≡ (s.inst_erased x || ltb 0 (count x xs))
    pub kept :
        (y : ℕ)
        → ((x : ℕ) → 0 < count x xs → count x (s.operands y) ≡ 0)
        → t.operands y ≡ s.operands y
    pub targets : t.targets ≡ s.targets
    pub blocks : t.block_erased ≡ s.block_erased

  erase_insts-Erases : (xs : List ℕ) (s : Code) → Erases xs s (erase_insts undef xs s)
  unfolding erase_insts
  erase_insts-Erases [] s = record {
    erased = λ x. ground arith;
    kept = λ y h. refl;
    targets = refl;
    blocks = refl;
  }
  erase_insts-Erases (x ∷ xs) s =
      let s1 : Code = record s {
        operands = λ y. replace_uses (entry x (undef x)) (s.operands y);
        inst_erased = update s.inst_erased x true;
      } in
      let p = erase_insts-Erases xs s1 in
      record {
        erased = λ z. p.erased z ∙ update_or s.inst_erased x z (count z xs);
        kept = λ y h.
            let same : s1.operands y ≡ s.operands y =
              replace_uses-same x (undef x) (s.operands y) (h x (ground arith)) in
            p.kept y (λ z c. ap (count z) same ∙ h z (omega (arith, c))) ∙ same;
        targets = p.targets;
        blocks = p.blocks;
      }

  pub erase_bodies-Erases :
      (insts_of : ℕ → List ℕ) (bs : List ℕ) (s : Code)
      → Erases (body insts_of bs) s (erase_bodies undef insts_of bs s)
  unfolding erase_bodies
  erase_bodies-Erases insts_of [] s = record {
    erased = λ x. ground arith;
    kept = λ y h. refl;
    targets = refl;
    blocks = refl;
  }
  erase_bodies-Erases insts_of (b ∷ bs) s =
      let p = erase_insts-Erases (insts_of b) s in
      let q = erase_bodies-Erases insts_of bs (erase_insts undef (insts_of b) s) in
      record {
        erased = λ x.
            ground (arith, p.erased x, q.erased x, count-append x (insts_of b) (body insts_of bs));
        kept = λ y h.
            let same =
              p.kept y
                (λ x c. h x (omega (arith, c, count-append x (insts_of b) (body insts_of bs)))) in
            q.kept y (λ x c.
              ap (count x) same
              ∙ h x (omega (arith, c, count-append x (insts_of b) (body insts_of bs))))
            ∙ same;
        targets = q.targets ∙ p.targets;
        blocks = q.blocks ∙ p.blocks;
      }

  pub erase_blocks_lem :
      (bs : List ℕ) (s : Code)
      → let t = erase_blocks undef bs s in
        ((b : ℕ) → t.block_erased b ≡ (s.block_erased b || ltb 0 (count b bs)))
        × (t.operands ≡ s.operands)
        × (t.targets ≡ s.targets)
        × (t.inst_erased ≡ s.inst_erased)
  unfolding erase_blocks
  erase_blocks_lem [] s = (λ b. ground arith, refl, refl, refl)
  erase_blocks_lem (x ∷ bs) s =
      let s1 : Code = record s { block_erased = update s.block_erased x true } in
      let (p, q, r, u) = erase_blocks_lem bs s1 in
      (λ b. p b ∙ update_or s.block_erased x b (count b bs), q, r, u)
