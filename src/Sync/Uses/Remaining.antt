-- ===== src/Sync/Uses/Remaining.antt =====
-- How many users of a value are left for `insertConsume` (DSWP_5.cpp).
use dswp_plus.Base.{
  ℕ, ◌≡◌, sym, subst, ◌+◌, ◌<◌, ◌≤◌, List, [], ◌∷◌, ◌==◌, if◌then◌else◌, ltb, count, arith,
  Bool-cases, inl, inr, eq-of-==,
}

-- How many of the instructions have `old` for an operand.
abbrev pub remaining : ℕ → List ℕ → (ℕ → List ℕ) → ℕ
remaining old [] ops = 0
remaining old (y ∷ ys) ops = (if ltb 0 (count old (ops y)) then 1 else 0) + remaining old ys ops

pub remaining_mono :
    (old : ℕ) (ys : List ℕ) (ops ops' : ℕ → List ℕ)
    → ((y : ℕ) → count old (ops y) ≡ 0 → count old (ops' y) ≡ 0)
    → remaining old ys ops' ≤ remaining old ys ops
remaining_mono old [] ops ops' h = omega arith
remaining_mono old (y ∷ ys) ops ops' h = ground (arith, h y, remaining_mono old ys ops ops' h)

pub remaining-less :
    (old : ℕ) (ys : List ℕ) (ops ops' : ℕ → List ℕ) (z : ℕ)
    → ((y : ℕ) → count old (ops y) ≡ 0 → count old (ops' y) ≡ 0)
    → 0 < count z ys
    → 0 < count old (ops z)
    → count old (ops' z) ≡ 0
    → remaining old ys ops' < remaining old ys ops
remaining-less old [] ops ops' z h c u v = absurd (omega (arith, c))
remaining-less old (y ∷ ys) ops ops' z h c u v = elim (Bool-cases (z == y)) [
  | inl e ↦
      let same = eq-of-== z y e in
      let u' : 0 < count old (ops y) = subst (λ x. 0 < count old (ops x)) same u in
      let v' : count old (ops' y) ≡ 0 = subst (λ x. count old (ops' x) ≡ 0) same v in
      ground (arith, u', v', remaining_mono old ys ops ops' h)
  | inr e ↦ ground (arith, h y, remaining-less old ys ops ops' z h (ground (arith, c, e)) u v)
]

pub remaining-some :
    (old : ℕ) (ys : List ℕ) (ops : ℕ → List ℕ)
    → 0 < remaining old ys ops
    → (y : ℕ) × (0 < count y ys) × (0 < count old (ops y))
remaining-some old [] ops h = absurd (omega (arith, h))
remaining-some old (y ∷ ys) ops h = elim (Bool-cases (ltb 0 (count old (ops y)))) [
  | inl e ↦ (y, ground arith, ground (arith, e))
  | inr e ↦
      let (z, c, u) = remaining-some old ys ops (ground (arith, h, e)) in (z, ground (arith, c), u)
]

pub remaining-none :
    (old : ℕ) (ys : List ℕ) (ops : ℕ → List ℕ) (y : ℕ)
    → remaining old ys ops ≡ 0
    → 0 < count y ys
    → count old (ops y) ≡ 0
remaining-none old [] ops y h c = absurd (omega (arith, c))
remaining-none old (z ∷ ys) ops y h c = elim (Bool-cases (y == z)) [
  | inl e ↦ subst (λ x. count old (ops x) ≡ 0) (sym (eq-of-== y z e)) (ground (arith, h))
  | inr e ↦ remaining-none old ys ops y (ground (arith, h)) (ground (arith, c, e))
]
