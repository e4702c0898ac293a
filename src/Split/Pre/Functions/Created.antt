-- ===== src/Split/Pre/Functions/Created.antt =====
-- What the loop of DSWP_4.cpp that creates the threads' functions does.
use mathlib.Core.List.{append_assoc, append-nil}
use dswp_plus.Base.{
  ℕ, zero, suc, ◌≡◌, ◌≢◌, ◌↔◌, refl, sym, ap, ◌∙◌, ◌+◌, ◌<◌, ◌≤◌, List, [], ◌∷◌, ◌++◌, ◌==◌,
  if◌then◌else◌, ltb, count, count-snoc, length, arith, Bool-cases, inl, inr, ◌⊎◌, eq-of-==, some,
}
use dswp_plus.Split.Pre.Functions.{ModuleApi, Workers, worker_name, create_worker, create_from}
use dswp_plus.Split.Pre.Functions.Names.{AreDigits, worker_name_inj}

-- `getOrInsertFunction` by LLVM's documentation: the module has the function by the name then, the
-- other names stay, and a function has one name.
pub record IsModule {M : Type 0} (api : ModuleApi M) : Type 0 where
  pub found :
      (n : List ℕ) (m : M)
      → api.get_function n (api.get_or_insert n m).1 ≡ some (api.get_or_insert n m).0
  pub other :
      (n k : List ℕ) (m : M)
      → k ≢ n
      → api.get_function k (api.get_or_insert n m).1 ≡ api.get_function k m
  pub named :
      (n k : List ℕ) (f : ℕ) (m : M)
      → api.get_function n m ≡ some f
      → api.get_function k m ≡ some f
      → n ≡ k

-- The set with `g` in it.
generated_lem :
    (f g : ℕ) (gs : List ℕ)
    → (0 < count f (if ltb 0 (count g gs) then gs else gs ++ (g ∷ [])))
      ↔ ((0 < count f gs) ⊎ (f ≡ g))
generated_lem f g gs = elim (Bool-cases (ltb 0 (count g gs))) [
  | inl e ↦
      rw e
        (λ h. inl h, λ h. elim h [ inl k ↦ k | inr q ↦ ground (arith, e, ap (λ z. count z gs) q) ])
  | inr e ↦
      let c = count-snoc f g gs in
      rw e (
        λ h. elim (Bool-cases (f == g)) [
          | inl q ↦ inr (eq-of-== f g q)
          | inr q ↦ inl (ground (arith, h, c, q))
        ],
        λ h. ground (arith, h, c),
      )
]

module _ {M : Type 0} (api : ModuleApi M) (itoa : ℕ → List ℕ) (law : IsModule api)
    (digits : AreDigits itoa) (counter : ℕ) where
  -- The functions of the list have the names of the loop's threads from `i` on.
  abbrev pub AreNamed : ℕ → List ℕ → M → Type 0
  AreNamed i [] m = Unit
  AreNamed i (f ∷ fs) m =
      (api.get_function (worker_name itoa counter i) m ≡ some f) × AreNamed (i + 1) fs m

  -- What the loop does from `i` on.
  pub record Creates (n i : ℕ) (fs : List ℕ) (w w' : Workers M) : Type 0 where
    pub number : length fs ≡ n
    pub names : AreNamed i fs w'.module_of
    pub kept :
        (k : List ℕ)
        → ((j : ℕ) → i ≤ j → j < i + n → k ≢ worker_name itoa counter j)
        → api.get_function k w'.module_of ≡ api.get_function k w.module_of
    pub funcs : w'.all_func ≡ w.all_func ++ fs
    pub members :
        (f : ℕ) → (0 < count f w'.generated) ↔ ((0 < count f w.generated) ⊎ (0 < count f fs))

  pub create_from-Creates :
      (n i : ℕ) (w : Workers M)
      → (fs : List ℕ) × Creates n i fs w (create_from api itoa counter n i w)
  unfolding create_from create_worker
  create_from-Creates zero i w = (
    [],
    record {
      number = refl;
      names = tt;
      kept = λ k h. refl;
      funcs = sym (append-nil w.all_func);
      members = λ f. (λ h. inl h, λ h. elim h [ inl x ↦ x | inr x ↦ absurd (omega (arith, x)) ]);
    },
  )
  create_from-Creates (suc n) i w =
      let name : List ℕ = worker_name itoa counter i in
      let g : ℕ = (api.get_or_insert name w.module_of).0 in
      let w1 : Workers M = create_worker api itoa counter i w in
      let (fs, p) = create_from-Creates n (i + 1) w1 in
      (
        g ∷ fs,
        record {
          number = omega (arith, p.number);
          names = (
            p.kept name (λ j lo hi e.
                  omega (arith, lo, (worker_name_inj itoa counter i counter j digits e).1))
                ∙ law.found name w.module_of,
            p.names,
          );
          kept = λ k h.
              p.kept k (λ j lo hi. h j (omega (arith, lo)) (omega (arith, hi)))
              ∙ law.other name k w.module_of (h i (omega arith) (omega arith));
          funcs = p.funcs ∙ append_assoc w.all_func (g ∷ []) fs;
          members = λ f. (
            λ h. elim ((p.members f).0 h) [
              | inr later ↦ inr (omega (arith, later))
              | inl now ↦ elim ((generated_lem f g w.generated).0 now) [
                | inl old ↦ inl old
                | inr e ↦ inr (ground (arith, e))
              ]
            ],
            λ h. (p.members f).1 (elim h [
              | inl old ↦ inl ((generated_lem f g w.generated).1 (inl old))
              | inr new ↦ elim (Bool-cases (f == g)) [
                | inl e ↦ inl ((generated_lem f g w.generated).1 (inr (eq-of-== f g e)))
                | inr e ↦ inr (ground (arith, new, e))
              ]
            ]),
          );
        },
      )
