-- ===== src/Split/Tests.antt =====
-- The live values of a loop of three instructions, and the dominators of a function.
use mathlib.Core.List.{Memᴰ}
use dswp_plus.Base.{
  ℕ, zero, suc, ◌≡◌, refl, ◌<◌, ap, Bool-cases, inl, inr, eq-of-==, ◌+◌, true, none, some, List, [],
  ◌∷◌, ◌==◌, if◌then◌else◌, count, arith, ltb, ◌&&◌,
}
use dswp_plus.Split.Liveness.{by_inst, Values, LiveInfo, get_liveinfo}
use dswp_plus.Split.Liveness.Exact.{OnlyInsts, used_outside, is_operand, get_liveinfo-exact}
use dswp_plus.Split.Pre.Outside.{AreUses}
use dswp_plus.Split.Dominators.{Dominators, get_dominators, get_dominators-IsTree}
use dswp_plus.Split.Code.Target.Nearest.{IsTree}
use dswp_plus.Split.Code.Tests.{sample_cfg, sample_dom, sample_post}

-- The loop has 0, 1 and 2. 1 adds 0 and the argument 7; 2 stores 1; 9 is behind the loop.
abbrev pub values : Values
values = record {
  is_void = λ x. x == 2;
  uses = λ x.
      if x == 0
      then by_inst 1 ∷ []
      else if x == 1
      then by_inst 2 ∷ by_inst 9 ∷ by_inst 9 ∷ []
      else [];
  operands = λ x.
      if x == 1
      then 0 ∷ 7 ∷ 7 ∷ []
      else if x == 2
      then 1 ∷ 7 ∷ []
      else if x == 9
      then 1 ∷ 1 ∷ []
      else [];
  is_variable = λ x. true;
  contains = λ x. ltb x 3;
}

abbrev pub insts : List ℕ
insts = 0 ∷ 1 ∷ 2 ∷ []

sample_liveinfo :
    get_liveinfo values insts
    ≡ some (record { defin = 0 ∷ 1 ∷ []; livein = 7 ∷ []; liveout = 1 ∷ [] })
unfolding get_liveinfo
sample_liveinfo = refl

sample_uses : (x : ℕ) → 0 < count x insts → OnlyInsts values (values.uses x)
sample_uses zero h = tt
sample_uses (suc zero) h = tt
sample_uses (suc (suc x)) h = ground arith

get_liveinfo-exact_example :
    (l : LiveInfo) × (get_liveinfo values insts ≡ some l)
    × ((x : ℕ) → count x l.defin ≡ (if values.is_void x then 0 else count x insts))
    × ((x : ℕ)
        → count x l.liveout ≡ (if used_outside values (values.uses x) then count x insts else 0))
    × ((x : ℕ)
        → count x l.livein ≡ (
            if values.is_variable x && (count x l.defin == 0 && is_operand values x insts)
            then 1
            else 0))
get_liveinfo-exact_example = get_liveinfo-exact values insts sample_uses

sample_listed :
    (x y : ℕ)
    → 0 < count x insts
    → 0 < count x (values.operands y)
    → Memᴰ (by_inst y) (values.uses x)
sample_listed zero y c u = let e : y ≡ 1 = ground (arith, u) in Memᴰ.head (ap by_inst e)
sample_listed (suc zero) y c u = elim (Bool-cases (y == 2)) [
  | inl e ↦ Memᴰ.head (ap by_inst (eq-of-== y 2 e))
  | inr e ↦ let e' : y ≡ 9 = ground (arith, u, e) in Memᴰ.tail (Memᴰ.head (ap by_inst e'))
]
sample_listed (suc (suc x)) y c u = absurd (ground (arith, u, c))

pub values-AreUses : AreUses values insts (λ j. j + 60)
values-AreUses = record { only = sample_uses; listed = sample_listed }

-- A function of the blocks 4, 5 and 9, in this order.
get_dominators-IsTree_example :
    (d : Dominators) × (get_dominators
        (λ b. some (sample_cfg.idom b))
        (λ b. some (sample_cfg.postidom b))
        (4 ∷ 5 ∷ 9 ∷ [])
        (record { idom = λ _. none; postidom = λ _. none })
      ≡ some d)
    × ((b : ℕ)
        → 0 < count b (4 ∷ 5 ∷ 9 ∷ [])
        → (some (sample_cfg.idom b) ≡ some (d.idom b))
          × (some (sample_cfg.postidom b) ≡ some (d.postidom b)))
    × IsTree d.idom 3
    × IsTree d.postidom 3
get_dominators-IsTree_example =
    get_dominators-IsTree (λ b. some (sample_cfg.idom b)) (λ b. some (sample_cfg.postidom b))
      (4 ∷ 5 ∷ 9 ∷ []) 3 sample_dom.height sample_post.height
      ((_, refl), (_, refl), ((_, refl), (_, refl), ((_, refl), (_, refl), tt)))
      (λ b. (sample_dom.low b, sample_post.low b)) (λ b p e. sample_dom.rises b p (cc))
      (λ b p e. sample_post.rises b p (cc))
