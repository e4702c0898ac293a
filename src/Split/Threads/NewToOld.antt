-- ===== src/Split/Threads/NewToOld.antt =====
-- `newToOld` (DSWP_4.cpp), one map for all threads, and where `insertConsume` (DSWP_5.cpp) finds a place
-- by it.
use dswp_plus.Base.{
  ℕ, zero, suc, ◌≡◌, ◌≢◌, refl, sym, subst, ◌<◌, Option, some, none, ◌==◌, arith, inl, inr,
  Bool-cases, eq-of-==, ne-of-==,
}
use dswp_plus.Split.Code.Copy.{Copies}
use dswp_plus.Split.Threads.Crossing.{or_else, place_of}

-- `newToOld`, which the threads below `n` have written one after the other.
abbrev pub all_new_to_old : (ℕ → Copies) → ℕ → ℕ → Option ℕ
all_new_to_old tables zero nu = none
all_new_to_old tables (suc n) nu = or_else ((tables n).new_to_old nu) (all_new_to_old tables n nu)

pub all_new_to_old_lem :
    (tables : ℕ → Copies) (n i nu u : ℕ)
    → i < n
    → (tables i).new_to_old nu ≡ some u
    → ((j : ℕ) → j < n → j ≢ i → (tables j).new_to_old nu ≡ none)
    → all_new_to_old tables n nu ≡ some u
all_new_to_old_lem tables zero i nu u h e others = absurd (omega (arith, h))
all_new_to_old_lem tables (suc n) i nu u h e others = elim (Bool-cases (n == i)) [
  | inl same ↦
      let e' : (tables n).new_to_old nu ≡ some u =
        subst (λ j. (tables j).new_to_old nu ≡ some u) (sym (eq-of-== n i same)) e in
      rw e' refl
  | inr other ↦
      let ne = ne-of-== n i other in
      let empty = others n (omega arith) ne in
      rw empty (
        all_new_to_old_lem tables n i nu u (omega (arith, h, ne)) e
          (λ j less. others j (omega (arith, less))))
]

-- The place depends on `instMap` only at the old instruction.
pub place_of_same :
    (m places f g : ℕ → Option ℕ) (nu u : ℕ)
    → m nu ≡ some u
    → f u ≡ g u
    → place_of m places f nu ≡ place_of m places g nu
place_of_same m places f g nu u e same = rw (place_of, e, same) refl
