-- ===== src/Split/Threads/Operands.antt =====
-- The operands of the copies in the function of a thread, behind `replaceUses` of `loopSplit`
-- (DSWP_4.cpp).
use dswp_plus.Base.{
  ℕ, ◌≡◌, refl, sym, ap, subst, ◌∙◌, ◌≤◌, ◌<◌, Bool, false, List, [], ◌∷◌, count, arith,
  Option-cases, inl, inr, pos, if◌then◌else◌,
}
use dswp_plus.Base.Result.{Result, ok}
use dswp_plus.Split.Code.Target.{NewInst, new_inst}
use dswp_plus.Split.Uses.{replaced, replace_uses}
use dswp_plus.Split.Pre.{map_outs}
use dswp_plus.Split.Pre.Struct.{Holds, Holds-count, map_outs-Holds}
use dswp_plus.Split.Code.Copy.{Copies, keeps}
use dswp_plus.Split.Threads.{
  Names, Loop, Worker, thread_blocks, block_map, make_worker, is_jump, jumps, new_operands,
}
use dswp_plus.Split.Threads.Crossing.{IsSplit, IsReady, HasPlaces}
use dswp_plus.Split.Threads.Total.{IsLoop, make_worker_lem}

module _ (l : Loop) (insts : List ℕ) (ok_split : IsSplit l insts) (fuel depth : ℕ)
    (enough : depth ≤ fuel) (i : ℕ) (n : Names) where
  -- The thread gets the instruction.
  abbrev pub gets : ℕ → Bool
  gets = keeps l.cfg fuel (block_map l fuel n (thread_blocks l fuel i)) l.thread i n.copy

  -- An old operand and the new one: a load of the field that holds it, for what the loop takes in; the
  -- copy, for an instruction of the thread; and the old one, for an instruction that the thread lacks.
  pub record IsOperand (old new : ℕ) : Type 0 where
    pub loads : 0 < count old l.livein → (k : ℕ) × (new ≡ n.loaded k) × Holds 0 l.livein k old
    pub own : count old l.livein ≡ 0 → 0 < count old insts → l.thread old ≡ pos i → new ≡ n.copy old
    pub others : count old l.livein ≡ 0 → gets old ≡ false → new ≡ old

  abbrev pub AreOperands : List ℕ → List ℕ → Type 0
  AreOperands [] [] = Unit
  AreOperands [] (new ∷ news) = ⊥
  AreOperands (old ∷ olds) [] = ⊥
  AreOperands (old ∷ olds) (new ∷ news) = IsOperand old new × AreOperands olds news

  module _ (t : Copies) (p : HasPlaces l insts ok_split fuel i n depth enough t) where
    replaced-IsOperand :
        (old : ℕ) → IsOperand old (replaced (map_outs n.loaded 0 l.livein t.inst_map) old)
    replaced-IsOperand old = elim (map_outs-Holds n.loaded 0 l.livein t.inst_map old) [
      | inl (k, e, h) ↦
          let c = Holds-count 0 l.livein k old h in
          record {
            loads = λ _. (k, rw (replaced, e) refl, h);
            own = λ z. absurd (omega (arith, c, z));
            others = λ z. absurd (omega (arith, c, z));
          }
      | inr (c, e) ↦ record {
        loads = λ z. absurd (omega (arith, c, z));
        own = λ _ z same. rw (replaced, e, p.own old z same) refl;
        others = λ _ g. elim (Option-cases (t.inst_map old)) [
          | inl none_yet ↦ rw (replaced, e, none_yet) refl
          | inr (m, h) ↦ absurd (cc (g, (p.only old m h).0))
        ];
      }
    ]

    replace_uses-AreOperands :
        (ops : List ℕ)
        → AreOperands ops (replace_uses (map_outs n.loaded 0 l.livein t.inst_map) ops)
    unfolding replace_uses
    replace_uses-AreOperands [] = tt
    replace_uses-AreOperands (o ∷ ops) = (replaced-IsOperand o, replace_uses-AreOperands ops)

  -- What `loopSplit` makes for an instruction.
  abbrev pub made_for : ℕ → Result NewInst
  made_for = new_inst l.cfg fuel (block_map l fuel n (thread_blocks l fuel i))

  -- Let the thread's code be ready and its blocks have the header. Then its function is made. A branch
  -- that is made unconditional has no operand. The operands of each other copy are those of the old
  -- instruction, changed so: for a value that the loop takes in, there is the load of its field of the
  -- struct; for an instruction of the thread, its copy; and an instruction that the thread does not
  -- get is left, for `insertConsume` to replace.
  pub make_worker-AreOperands :
      IsLoop l insts ok_split fuel depth enough
      → IsReady l insts ok_split fuel i n depth enough
      → 0 < count l.header (thread_blocks l fuel i)
      → (w : Worker) × (make_worker l fuel i n (thread_blocks l fuel i) ≡ ok w)
        × ((x target : ℕ) → made_for x ≡ ok (NewInst.jump target) → w.operands x ≡ [])
        × ((x : ℕ) (blocks : List ℕ)
            → made_for x ≡ ok (NewInst.cloned blocks)
            → AreOperands (l.operands x) (w.operands x))
  unfolding new_operands jumps
  make_worker-AreOperands p r header =
      elim (make_worker_lem l insts ok_split fuel depth enough i n p r) [
        | inl (c, _) ↦ absurd (omega (arith, c, header))
        | inr (w, eq, k) ↦
            let rel = thread_blocks l fuel i in
            let ops : (x : ℕ)
                → w.operands x ≡ (
                    if is_jump (made_for x)
                    then []
                    else replace_uses (map_outs n.loaded 0 l.livein w.tables.inst_map)
                        (l.operands x)) =
              λ x.
                ap (λ (f : ℕ → List ℕ). f x)
                  (k.uses ∙ ap (new_operands l.operands (jumps l fuel n rel)) k.loads) in
            (
              w,
              eq,
              λ x target e. ops x ∙ rw e refl,
              λ x blocks e.
                  subst (AreOperands (l.operands x)) (sym (ops x ∙ rw e refl))
                    (replace_uses-AreOperands w.tables k.places (l.operands x)),
            )
      ]
