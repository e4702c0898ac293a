-- ===== src/Split/Pre/Outside.antt =====
-- What is left of the loop's values behind the loop, once `getLiveinfo` and `preLoopSplit`
-- (DSWP_4.cpp) are done.
use mathlib.Core.List.{Memᴰ}
use mathlib.Core.List.Memᴰ
use dswp_plus.Base.{
  ℕ, ◌≡◌, refl, ap, ◌<◌, true, false, none, some, List, [], ◌∷◌, if◌then◌else◌, count, arith,
  Bool-cases, inl, inr, ◌⊎◌, ltb,
}
use dswp_plus.Split.Uses.{replaced, replace_uses}
use dswp_plus.Split.Liveness.{Use, by_inst, by_other, Values, LiveInfo, get_liveinfo}
use dswp_plus.Split.Liveness.Exact.{OnlyInsts, used_outside, get_liveinfo-exact}
use dswp_plus.Split.Pre.{map_outs, outside_operands}
use dswp_plus.Split.Pre.Struct.{Holds, Holds-count, map_outs-Holds}

module _ (v : Values) (insts : List ℕ) (load : ℕ → ℕ) where
  -- What LLVM keeps: an operand that is an instruction of the loop has its user among its uses, and all
  -- the uses of such an instruction are by instructions.
  pub record AreUses : Type 0 where
    pub only : (x : ℕ) → 0 < count x insts → OnlyInsts v (v.uses x)
    pub listed :
        (x y : ℕ) → 0 < count x insts → 0 < count x (v.operands y) → Memᴰ (by_inst y) (v.uses x)

  -- Old operands and new ones: in place of an instruction of the loop there is the load of a field of
  -- results that holds it, and every other operand is as before.
  abbrev pub AreLoads : List ℕ → List ℕ → List ℕ → Type 0
  AreLoads liveout [] [] = Unit
  AreLoads liveout [] (n ∷ ns) = ⊥
  AreLoads liveout (o ∷ os) [] = ⊥
  AreLoads liveout (o ∷ os) (n ∷ ns) =
      (((0 < count o insts) × (k : ℕ) × (n ≡ load k) × Holds 0 liveout k o)
        ⊎ ((count o insts ≡ 0) × (n ≡ o)))
      × AreLoads liveout os ns

  used_outside-Memᴰ :
      (y : ℕ) (us : List Use)
      → v.contains y ≡ false
      → Memᴰ (by_inst y) us
      → used_outside v us ≡ true
  used_outside-Memᴰ y [] out m = absurd (Memᴰ.not-nil m)
  used_outside-Memᴰ y (by_other ∷ us) out m = elim (Memᴰ.cases_cons m) [
    | inl e ↦ absurd (cc)
    | inr m' ↦ used_outside-Memᴰ y us out m'
  ]
  used_outside-Memᴰ y (by_inst u ∷ us) out m = elim (Memᴰ.cases_cons m) [
    | inl e ↦ let same : y ≡ u = cc in ground (arith, ap v.contains same, out)
    | inr m' ↦ let rest = used_outside-Memᴰ y us out m' in ground (arith, rest)
  ]

  module _ (p : AreUses) (y : ℕ) (out : v.contains y ≡ false) (liveout : List ℕ)
      (exact : (x : ℕ)
        → count x liveout ≡ (if used_outside v (v.uses x) then count x insts else 0)) where
    replaced_lem :
        (o : ℕ)
        → 0 < count o (v.operands y)
        → let n = replaced (map_outs load 0 liveout (λ _. none)) o in
          ((0 < count o insts) × (k : ℕ) × (n ≡ load k) × Holds 0 liveout k o)
          ⊎ ((count o insts ≡ 0) × (n ≡ o))
    replaced_lem o used = elim (map_outs-Holds load 0 liveout (λ _. none) o) [
      | inl (k, e, h) ↦
          inl (ground (arith, Holds-count 0 liveout k o h, exact o), k, rw (replaced, e) refl, h)
      | inr (c, e) ↦ elim (Bool-cases (ltb 0 (count o insts))) [
        | inl some_of ↦
            let uses =
              used_outside-Memᴰ y (v.uses o) out (p.listed o y (ground (arith, some_of)) used) in
            absurd (ground (arith, exact o, c, uses, some_of))
        | inr none_of ↦ inr (ground (arith, none_of), rw (replaced, e) refl)
      ]
    ]

    replace_uses-AreLoads :
        (ops : List ℕ)
        → ((o : ℕ) → 0 < count o ops → 0 < count o (v.operands y))
        → AreLoads liveout ops (replace_uses (map_outs load 0 liveout (λ _. none)) ops)
    unfolding replace_uses
    replace_uses-AreLoads [] h = tt
    replace_uses-AreLoads (o ∷ ops) h =
        (replaced_lem o (h o (ground arith)), replace_uses-AreLoads ops (λ z c. h z (omega arith)))

  -- Let every use of the loop's instructions be by an instruction, and let LLVM list each user among
  -- the uses. `getLiveinfo` returns, and behind `preLoopSplit` no instruction outside the loop has one
  -- of the loop as an operand: in its place is the load of a field of results that is that
  -- instruction's. All other operands outside the loop are as before.
  pub outside_operands-AreLoads :
      AreUses
      → (l : LiveInfo) × (get_liveinfo v insts ≡ some l)
        × ((y : ℕ)
            → v.contains y ≡ false
            → AreLoads l.liveout
                (v.operands y)
                (outside_operands load l.liveout v.contains v.operands y))
  unfolding outside_operands
  outside_operands-AreLoads p =
      let (l, eq, _, exact, _) = get_liveinfo-exact v insts p.only in
      (
        l,
        eq,
        λ y out.
            rw (outside_operands, out)
              (replace_uses-AreLoads p y out l.liveout exact (v.operands y) (λ o c. c)),
      )
