-- ===== src/Split/Pre/Functions/Names.antt =====
-- The names of the threads' functions (DSWP_4.cpp) are different for different loops and threads.
use dswp_plus.Base.{ℕ, ◌≡◌, refl, List, [], ◌∷◌, ◌++◌, count, arith}
use dswp_plus.Split.Pre.Functions.{worker_name}

-- What the code relies on of `itoa`: different numbers have different digits, and none is `_`.
pub record AreDigits (itoa : ℕ → List ℕ) : Type 0 where
  pub inj : (a b : ℕ) → itoa a ≡ itoa b → a ≡ b
  pub plain : (a : ℕ) → count 95 (itoa a) ≡ 0

-- Two lists cut at their first `_`.
cut_at :
    (xs ys us vs : List ℕ)
    → count 95 xs ≡ 0
    → count 95 ys ≡ 0
    → (xs ++ (95 ∷ us)) ≡ (ys ++ (95 ∷ vs))
    → (xs ≡ ys) × (us ≡ vs)
cut_at [] [] us vs hx hy e = (refl, cc)
cut_at [] (y ∷ ys) us vs hx hy e = let same : 95 ≡ y = cc in absurd (ground (arith, same, hy))
cut_at (x ∷ xs) [] us vs hx hy e = let same : x ≡ 95 = cc in absurd (ground (arith, same, hx))
cut_at (x ∷ xs) (y ∷ ys) us vs hx hy e =
    let same : x ≡ y = cc in
    let rest : (xs ++ (95 ∷ us)) ≡ (ys ++ (95 ∷ vs)) = cc in
    let (p, q) = cut_at xs ys us vs (ground (arith, hx)) (ground (arith, hy)) rest in (cc, q)

pub worker_name_inj :
    (itoa : ℕ → List ℕ) (c i d j : ℕ)
    → AreDigits itoa
    → worker_name itoa c i ≡ worker_name itoa d j
    → (c ≡ d) × (i ≡ j)
worker_name_inj itoa c i d j digits e =
    let (p, q) = cut_at (itoa c) (itoa d) _ _ (digits.plain c) (digits.plain d) e in
    let last : itoa i ≡ itoa j = cc in (digits.inj c d p, digits.inj i j last)
