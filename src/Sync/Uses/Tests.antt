-- ===== src/Sync/Uses/Tests.antt =====
-- The value 5 is used by two instructions of the function 1 and by one of the function 2.
use mathlib.Core.List.{Memᴰ}
use mathlib.Core.List.Memᴰ
use dswp_plus.Base.{
  ℕ, ◌≡◌, ◌≢◌, refl, subst, ◌<◌, false, Option, none, some, List, [], ◌∷◌, ◌==◌, if◌then◌else◌, ltb,
  ◌||◌, count, arith, Bool-cases, inl, inr, eq-of-==,
}
use dswp_plus.Pdg.{DType, reg, control}
use dswp_plus.Sync.Uses.{receive_all}
use dswp_plus.Sync.Uses.Renamed.{Renamed}
use dswp_plus.Sync.Uses.Replaced.{casts, receive_all-Renamed}

abbrev users : List ℕ
users = 11 ∷ 12 ∷ 13 ∷ []

abbrev func_of : ℕ → ℕ
func_of y = if y == 11 || y == 12 || y == 13 then 1 else 2

abbrev operands : ℕ → List ℕ
operands y =
    if y == 11 then 5 ∷ 3 ∷ [] else if y == 12 then 5 ∷ 5 ∷ [] else if y == 21 then 5 ∷ [] else []

-- The iterator comes to the first user that is left, and its list ends there.
abbrev first_user : List ℕ → ℕ → (ℕ → List ℕ) → List (Option ℕ)
first_user [] old ops = []
first_user (y ∷ ys) old ops =
    if ltb 0 (count old (ops y)) then some y ∷ [] else first_user ys old ops

first_user-some : (ys : List ℕ) (old : ℕ) (ops : ℕ → List ℕ) → ¬ Memᴰ none (first_user ys old ops)
first_user-some [] old ops m = Memᴰ.not-nil m
first_user-some (y ∷ ys) old ops m = elim (Bool-cases (ltb 0 (count old (ops y)))) [
  | inl e ↦ elim (Memᴰ.cases_cons (rw e at m)) [ inl h ↦ absurd (cc) | inr n ↦ Memᴰ.not-nil n ]
  | inr e ↦ first_user-some ys old ops (rw e at m)
]

first_user-comes :
    (ys : List ℕ) (old : ℕ) (ops : ℕ → List ℕ) (y : ℕ)
    → 0 < count y ys
    → 0 < count old (ops y)
    → (z : ℕ) × Memᴰ (some z) (first_user ys old ops) × (0 < count z ys) × (0 < count old (ops z))
first_user-comes [] old ops y c h = absurd (omega (arith, c))
first_user-comes (x ∷ ys) old ops y c h = elim (Bool-cases (ltb 0 (count old (ops x)))) [
  | inl e ↦ (x, rw e (Memᴰ.head refl), ground arith, ground (arith, e))
  | inr e ↦
      let (z, m, cz, u) = first_user-comes ys old ops y (later e) h in
      (z, rw e m, ground (arith, cz), u)
]
  where
    later : ltb 0 (count old (ops x)) ≡ false → 0 < count y ys
    later e = elim (Bool-cases (y == x)) [
      | inl s ↦
          let same : 0 < count old (ops x) =
            subst (λ z. 0 < count old (ops z)) (eq-of-== y x s) h in
          absurd (ground (arith, same, e))
      | inr s ↦ ground (arith, c, s)
    ]

abbrev channels : List (DType × ℕ)
channels = (reg, 51) ∷ (control, 52) ∷ (reg, 53) ∷ []

receive_all-Renamed_example :
    (ops' : ℕ → List ℕ) × (receive_all func_of (first_user users) 1 5 channels operands ≡ some ops')
    × ((y : ℕ) → func_of y ≡ 1 → count 5 (ops' y) ≡ 0)
    × ((y : ℕ) → func_of y ≢ 1 → ops' y ≡ operands y)
    × ((y : ℕ) → Renamed 5 (casts channels) (operands y) (ops' y))
receive_all-Renamed_example =
    receive_all-Renamed func_of (first_user users) 1 5
      (record {
        are_insts = λ old ops. first_user-some users old ops;
        comes = λ old ops y e u.
            let (z, m, c, u') = first_user-comes users old ops y (ground (arith, e)) u in
            (z, m, ground (arith, c), u');
      })
      users (λ y e. ground (arith, e)) (λ y c. ground (arith, c)) channels operands refl
      (omega arith)
