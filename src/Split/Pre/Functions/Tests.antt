-- ===== src/Split/Pre/Functions/Tests.antt =====
-- A module in which the loop with the counter 1 has made a function. Its functions are listed from the
-- newest one on, and a function's address is the number of those that are older.
use dswp_plus.Base.{
  ℕ, zero, suc, ◌≡◌, ◌≢◌, ◌↔◌, refl, sym, ap, ap₂, ◌∙◌, ◌⊎◌, ◌<◌, ◌≤◌, Bool, true, false, ◌&&◌,
  Option, none, some, Option-cases, List, [], ◌∷◌, ◌==◌, if◌then◌else◌, count, length, arith,
  Bool-cases, inl, inr, eq-of-==,
}
use dswp_plus.Partition.{max_thread}
use dswp_plus.Split.Pre.Functions.{ModuleApi, Workers, worker_name, create_workers}
use dswp_plus.Split.Pre.Functions.Names.{AreDigits}
use dswp_plus.Split.Pre.Functions.Created.{IsModule, AreNamed}
use dswp_plus.Split.Pre.Functions.New.{AreKnown, create_workers-AreNamed}

abbrev same_name : List ℕ → List ℕ → Bool
same_name [] [] = true
same_name [] (y ∷ ys) = false
same_name (x ∷ xs) [] = false
same_name (x ∷ xs) (y ∷ ys) = (x == y) && same_name xs ys

same_name_self : (xs : List ℕ) → same_name xs xs ≡ true
same_name_self [] = refl
same_name_self (x ∷ xs) = ground (arith, same_name_self xs)

eq-same_name : (xs ys : List ℕ) → same_name xs ys ≡ true → xs ≡ ys
eq-same_name [] [] h = refl
eq-same_name [] (y ∷ ys) h = absurd (cc)
eq-same_name (x ∷ xs) [] h = absurd (cc)
eq-same_name (x ∷ xs) (y ∷ ys) h =
    ap₂ (λ z zs. z ∷ zs) (eq-of-== x y (ground (arith, h))) (eq-same_name xs ys (ground (arith, h)))

abbrev find_name : List ℕ → List (List ℕ) → Option ℕ
find_name n [] = none
find_name n (k ∷ m) = if same_name n k then some (length m) else find_name n m

abbrev insert_name : List ℕ → List (List ℕ) → ℕ × List (List ℕ)
insert_name n m = elim (find_name n m) [ none ↦ (length m, n ∷ m) | some f ↦ (f, m) ]

abbrev names : ModuleApi (List (List ℕ))
names = record { get_function = find_name; get_or_insert = insert_name }

find_name-less : (n : List ℕ) (m : List (List ℕ)) (f : ℕ) → find_name n m ≡ some f → f < length m
find_name-less n [] f h = absurd (cc)
find_name-less n (k ∷ m) f h = elim (Bool-cases (same_name n k)) [
  | inl e ↦
      let at : some (length m) ≡ some f = rw e at h in
      let at' : length m ≡ f = cc in omega (arith, at')
  | inr e ↦ omega (arith, find_name-less n m f (rw e at h))
]

find_name-inj :
    (n k : List ℕ) (f : ℕ) (m : List (List ℕ))
    → find_name n m ≡ some f
    → find_name k m ≡ some f
    → n ≡ k
find_name-inj n k f [] h h' = absurd (cc)
find_name-inj n k f (x ∷ m) h h' = elim (Bool-cases (same_name n x)) [
  | inl e ↦ elim (Bool-cases (same_name k x)) [
    | inl e' ↦ eq-same_name n x e ∙ sym (eq-same_name k x e')
    | inr e' ↦
        let at : some (length m) ≡ some f = rw e at h in
        let at' : length m ≡ f = cc in
        absurd (omega (arith, at', find_name-less k m f (rw e' at h')))
  ]
  | inr e ↦ elim (Bool-cases (same_name k x)) [
    | inl e' ↦
        let at : some (length m) ≡ some f = rw e' at h' in
        let at' : length m ≡ f = cc in absurd (omega (arith, at', find_name-less n m f (rw e at h)))
    | inr e' ↦ find_name-inj n k f m (rw e at h) (rw e' at h')
  ]
]

names-IsModule : IsModule names
names-IsModule = record {
  found = λ n m. elim (Option-cases (find_name n m)) [
    | inl e ↦ rw (names, insert_name, e) (rw (same_name_self n) refl)
    | inr (f, e) ↦ rw (names, insert_name, e) e
  ];
  other = λ n k m ne. elim (Option-cases (find_name n m)) [
    | inl e ↦ rw (names, insert_name, e) (rw (not_same k n ne) refl)
    | inr (f, e) ↦ rw (names, insert_name, e) refl
  ];
  named = find_name-inj;
}
  where
    not_same : (k n : List ℕ) → k ≢ n → same_name k n ≡ false
    not_same k n ne = elim (Bool-cases (same_name k n)) [
      | inl e ↦ absurd (ne (eq-same_name k n e))
      | inr e ↦ e
    ]

-- As many digits as the number says.
abbrev ones : ℕ → List ℕ
ones zero = []
ones (suc n) = 49 ∷ ones n

ones-AreDigits : AreDigits ones
ones-AreDigits = record { inj = inj; plain = plain }
  where
    inj : (a b : ℕ) → ones a ≡ ones b → a ≡ b
    inj zero zero e = refl
    inj zero (suc b) e = absurd (cc)
    inj (suc a) zero e = absurd (cc)
    inj (suc a) (suc b) e = let rest : ones a ≡ ones b = cc in ap suc (inj a b rest)

    plain : (a : ℕ) → count 95 (ones a) ≡ 0
    plain zero = refl
    plain (suc a) = omega (arith, plain a)

abbrev sample : Workers (List (List ℕ))
sample = record {
  module_of = worker_name ones 1 0 ∷ (109 ∷ []) ∷ [];
  all_func = [];
  generated = 1 ∷ [];
}

sample-AreKnown : AreKnown names ones names-IsModule ones-AreDigits 2 sample
sample-AreKnown f c = let at : 1 ≡ f = ground (arith, c) in (worker_name ones 1 0, ap some at)

create_workers-AreNamed_example :
    let w' = create_workers names ones 2 sample in
    (length w'.all_func ≡ max_thread)
    × AreNamed names ones names-IsModule ones-AreDigits 2 0 w'.all_func w'.module_of
    × ((f : ℕ) → count f w'.all_func ≤ 1)
    × ((f : ℕ) → 0 < count f w'.all_func → count f (1 ∷ []) ≡ 0)
    × ((f : ℕ) → (0 < count f w'.generated) ↔ ((0 < count f (1 ∷ [])) ⊎ (0 < count f w'.all_func)))
    × AreKnown names ones names-IsModule ones-AreDigits 2 w'
    × ((d j : ℕ)
        → d ≢ 2
        → find_name (worker_name ones d j) w'.module_of
          ≡ find_name (worker_name ones d j) sample.module_of)
create_workers-AreNamed_example =
    create_workers-AreNamed names ones names-IsModule ones-AreDigits 2 sample refl sample-AreKnown
      free
  where
    free : (j : ℕ) → j < max_thread → find_name (worker_name ones 2 j) sample.module_of ≡ none
    free zero h = refl
    free (suc zero) h = refl
    free (suc (suc j)) h = absurd (omega (arith, h))
