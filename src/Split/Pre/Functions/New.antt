-- ===== src/Split/Pre/Functions/New.antt =====
-- The functions of a loop's threads (DSWP_4.cpp) are new ones, and different from one another.
use dswp_plus.Base.{
  ℕ, ◌≡◌, ◌≢◌, ◌↔◌, sym, ap, subst, ◌∙◌, ◌+◌, ◌<◌, ◌≤◌, List, [], ◌∷◌, ◌++◌, ◌==◌, ltb, count,
  length, arith, Bool-cases, inl, inr, ◌⊎◌, eq-of-==, none, some,
}
use dswp_plus.Partition.{max_thread}
use dswp_plus.Split.Pre.Functions.{ModuleApi, Workers, worker_name, create_workers}
use dswp_plus.Split.Pre.Functions.Names.{AreDigits, worker_name_inj}
use dswp_plus.Split.Pre.Functions.Created.{IsModule, AreNamed, create_from-Creates}

module _ {M : Type 0} (api : ModuleApi M) (itoa : ℕ → List ℕ) (law : IsModule api)
    (digits : AreDigits itoa) (counter : ℕ) where
  AreNamed-cases :
      (i : ℕ) (fs : List ℕ) (m : M) (f : ℕ)
      → AreNamed api itoa law digits counter i fs m
      → 0 < count f fs
      → (j : ℕ) × (i ≤ j)
        × (j < i + length fs)
        × (api.get_function (worker_name itoa counter j) m ≡ some f)
  AreNamed-cases i [] m f p c = absurd (omega (arith, c))
  AreNamed-cases i (g ∷ fs) m f (e, p) c = elim (Bool-cases (f == g)) [
    | inl q ↦ (i, omega arith, omega arith, e ∙ ap some (sym (eq-of-== f g q)))
    | inr q ↦
        let (j, lo, hi, at) = AreNamed-cases (i + 1) fs m f p (ground (arith, c, q)) in
        (j, omega (arith, lo), omega (arith, hi), at)
  ]

  AreNamed-once :
      (i : ℕ) (fs : List ℕ) (m : M) (f : ℕ)
      → AreNamed api itoa law digits counter i fs m
      → count f fs ≤ 1
  AreNamed-once i [] m f p = omega arith
  AreNamed-once i (g ∷ fs) m f (e, p) = elim (Bool-cases (ltb 0 (count g fs))) [
    | inl c ↦
        let (j, lo, hi, at) = AreNamed-cases (i + 1) fs m g p (ground (arith, c)) in
        let same = law.named (worker_name itoa counter i) (worker_name itoa counter j) g m e at in
        absurd (omega (arith, lo, (worker_name_inj itoa counter i counter j digits same).1))
    | inr c ↦ ground (arith, c, AreNamed-once (i + 1) fs m f p)
  ]

  -- Each generated function has a name in the module.
  abbrev pub AreKnown : Workers M → Type 0
  AreKnown w =
      (f : ℕ) → 0 < count f w.generated → (k : List ℕ) × (api.get_function k w.module_of ≡ some f)

  -- Let `allFunc` be cleared, the generated functions be in the module, and no function of the module
  -- have one of the names for this loop. Then the loop makes a function for each thread, by its name and
  -- different from the others and from all that were generated for other loops. `generated` has these
  -- and those of before, all of them in the module still, and the names for a loop with another counter
  -- are as free as before.
  pub create_workers-AreNamed :
      (w : Workers M)
      → w.all_func ≡ []
      → AreKnown w
      → ((j : ℕ)
          → j < max_thread
          → api.get_function (worker_name itoa counter j) w.module_of ≡ none)
      → let w' = create_workers api itoa counter w in
        (length w'.all_func ≡ max_thread)
        × AreNamed api itoa law digits counter 0 w'.all_func w'.module_of
        × ((f : ℕ) → count f w'.all_func ≤ 1)
        × ((f : ℕ) → 0 < count f w'.all_func → count f w.generated ≡ 0)
        × ((f : ℕ)
            → (0 < count f w'.generated) ↔ ((0 < count f w.generated) ⊎ (0 < count f w'.all_func)))
        × AreKnown w'
        × ((d j : ℕ)
            → d ≢ counter
            → api.get_function (worker_name itoa d j) w'.module_of
              ≡ api.get_function (worker_name itoa d j) w.module_of)
  unfolding create_workers
  create_workers-AreNamed w cleared known free =
      let w' : Workers M = create_workers api itoa counter w in
      let (fs, p) = create_from-Creates api itoa law digits counter max_thread 0 w in
      let all : fs ≡ w'.all_func = sym (p.funcs ∙ ap (λ xs. xs ++ fs) cleared) in
      let named : AreNamed api itoa law digits counter 0 w'.all_func w'.module_of =
        subst (λ z. AreNamed api itoa law digits counter 0 z w'.module_of) all p.names in
      let number : length w'.all_func ≡ max_thread =
        subst (λ z. length z ≡ max_thread) all p.number in
      let still : (k : List ℕ) (f : ℕ)
          → api.get_function k w.module_of ≡ some f
          → api.get_function k w'.module_of ≡ some f =
        λ k f e.
          p.kept k (λ j lo hi q.
            let at = subst (λ z. api.get_function z w.module_of ≡ some f) q e in
            let free_at = free j (omega (arith, hi)) in
            let out : none ≡ some f = sym free_at ∙ at in absurd (cc))
          ∙ e in
      let members : (f : ℕ)
          → (0 < count f w'.generated) ↔ ((0 < count f w.generated) ⊎ (0 < count f w'.all_func)) =
        λ f.
          subst (λ z. (0 < count f w'.generated) ↔ ((0 < count f w.generated) ⊎ (0 < count f z)))
            all (p.members f) in
      (
        number,
        named,
        λ f. AreNamed-once 0 w'.all_func w'.module_of f named,
        λ f c. elim (Bool-cases (ltb 0 (count f w.generated))) [
          | inr e ↦ ground (arith, e)
          | inl e ↦
              let (k, at) = known f (ground (arith, e)) in
              let (j, lo, hi, at') = AreNamed-cases 0 w'.all_func w'.module_of f named c in
              let same =
                law.named k (worker_name itoa counter j) f w'.module_of (still k f at) at' in
              let old = subst (λ z. api.get_function z w.module_of ≡ some f) same at in
              let free_at = free j (omega (arith, hi, number)) in
              let out : none ≡ some f = sym free_at ∙ old in absurd (cc)
        ],
        members,
        λ f c. elim ((members f).0 c) [
          | inl old ↦ let (k, at) = known f old in (k, still k f at)
          | inr new ↦
              let (j, lo, hi, at) = AreNamed-cases 0 w'.all_func w'.module_of f named new in
              (worker_name itoa counter j, at)
        ],
        λ d j ne.
            p.kept (worker_name itoa d j)
              (λ i lo hi e. ne ((worker_name_inj itoa d j counter i digits e).0)),
      )
