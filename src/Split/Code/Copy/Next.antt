-- ===== src/Split/Code/Copy/Next.antt =====
-- The first of a list that a thread of `loopSplit` (DSWP_4.cpp) gets, and the first behind another.
use dswp_plus.Base.{
  ℕ, ◌≡◌, refl, ◌<◌, Bool, true, false, Option, some, List, [], ◌∷◌, ◌==◌, if◌then◌else◌, update,
  Bool-cases, inl, inr, eq-of-==, count, arith, ltb,
}
use dswp_plus.Split.Code.Copy.{point_all}

-- `y` is the first of the list that satisfies the test.
pub data IsFirst (p : ℕ → Bool) (y : ℕ) : List ℕ → Type 0 where
  first : {l : List ℕ} → p y ≡ true → IsFirst p y (y ∷ l)
  skip : {z : ℕ} {l : List ℕ} → p z ≡ false → IsFirst p y l → IsFirst p y (z ∷ l)

-- In the list `y` is the first behind `x` that satisfies the test.
pub data IsNext (p : ℕ → Bool) (x y : ℕ) : List ℕ → Type 0 where
  behind : {l : List ℕ} → IsFirst p y l → IsNext p x y (x ∷ l)
  later : {z : ℕ} {l : List ℕ} → IsNext p x y l → IsNext p x y (z ∷ l)

-- The last of the list satisfies the test; of an empty list, nothing is left over.
abbrev pub Ends : (ℕ → Bool) → List ℕ → List ℕ → Type 0
Ends p left [] = left ≡ []
Ends p left (x ∷ []) = p x ≡ true
Ends p left (x ∷ y ∷ l) = Ends p left (y ∷ l)

pub Ends-kept :
    (p : ℕ → Bool) (left : List ℕ) (x : ℕ) (l : List ℕ) → Ends p left (x ∷ l) → Ends p [] l
Ends-kept p left x [] e = refl
Ends-kept p left x (y ∷ []) e = e
Ends-kept p left x (y ∷ z ∷ l) e = Ends-kept p left y (z ∷ l) e

pub Ends-skip :
    (p : ℕ → Bool) (left left' : List ℕ) (x : ℕ) (l : List ℕ)
    → p x ≡ false
    → Ends p left (x ∷ l)
    → Ends p left' l
Ends-skip p left left' x [] h e = absurd (cc)
Ends-skip p left left' x (y ∷ []) h e = e
Ends-skip p left left' x (y ∷ z ∷ l) h e = Ends-last p left left' y z l e
  where
    Ends-last :
        (p : ℕ → Bool) (left left' : List ℕ) (y z : ℕ) (l : List ℕ)
        → Ends p left (y ∷ z ∷ l)
        → Ends p left' (y ∷ z ∷ l)
    Ends-last p left left' y z [] e = e
    Ends-last p left left' y z (w ∷ l) e = Ends-last p left left' z w l e

pub point_all_lem :
    (n : ℕ) (ps : List ℕ) (places : ℕ → Option ℕ) (x : ℕ)
    → point_all n ps places x ≡ (if ltb 0 (count x ps) then some n else places x)
unfolding point_all
point_all_lem n [] places x = refl
point_all_lem n (p ∷ ps) places x = elim (Bool-cases (p == x)) [
  | inl e ↦
      let e' = eq-of-== p x e in ground (arith, e', point_all_lem n ps (update places p (some n)) x)
  | inr e ↦ ground (arith, point_all_lem n ps (update places p (some n)) x)
]

pub Ends-mono :
    (p q : ℕ → Bool) (left xs : List ℕ)
    → ((x : ℕ) → p x ≡ true → q x ≡ true)
    → Ends p left xs
    → Ends q left xs
Ends-mono p q left [] h e = e
Ends-mono p q left (x ∷ []) h e = h x e
Ends-mono p q left (x ∷ y ∷ l) h e = Ends-mono p q left (y ∷ l) h e

IsFirst-count : (p : ℕ → Bool) (y : ℕ) {l : List ℕ} → IsFirst p y l → 0 < count y l
IsFirst-count p y (first h) = ground arith
IsFirst-count p y (skip h f) = omega (arith, IsFirst-count p y f)

pub IsNext-count :
    (p : ℕ → Bool) (x y : ℕ) {l : List ℕ} → IsNext p x y l → (0 < count x l) × (0 < count y l)
IsNext-count p x y (behind f) = (ground arith, omega (arith, IsFirst-count p y f))
IsNext-count p x y (later n) = let (a, b) = IsNext-count p x y n in (omega arith, omega arith)
