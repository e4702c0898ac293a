-- ===== src/Build/Data/Edges.antt =====
-- The edges of the register and memory dependences (DSWP_1.cpp).
use mathlib.Core.List.{Memᴰ}
use mathlib.Core.List.Memᴰ
use dswp_plus.Base.{
  ℕ, ◌≡◌, refl, ◌<◌, true, Option, none, some, List, [], ◌∷◌, ◌==◌, count, arith, Bool-cases, inl,
  inr, eq-of-==,
}
use dswp_plus.Pdg.{DType, reg, danti, Pdg, add_edge}
use dswp_plus.Pdg.Tables.{IsConsistent}
use dswp_plus.Build.Extends.{edge, HasEdge, Extends, Extends-refl, Extends-trans, add_edge-Extends}
use dswp_plus.Build.Data.{
  MemDep, def, clobber, non_local, unknown, Analysis, def_dtype, add_edge_if, add_edge_inside,
  add_uses, add_non_local, non_local_results, add_memory, add_inst, data_dependences,
}

-- What is assumed of LLVM: `contains` holds of instructions of the loop only, and the definition or
-- clobber that `getDependency` finds is one of them, since it stands in the same block.
pub record IsAnalysis (a : Analysis) (insts : List ℕ) : Type 0 where
  pub inside : (x : ℕ) → a.contains x ≡ true → 0 < count x insts
  pub def_inside : (x d : ℕ) → 0 < count x insts → a.dependency x ≡ def d → 0 < count d insts
  pub clobber_inside :
      (x d : ℕ) → 0 < count x insts → a.dependency x ≡ clobber d → 0 < count d insts

module _ (a : Analysis) (inst : ℕ) where
  -- The memory dependence that LLVM reports is an edge.
  abbrev pub MemoryIn : MemDep → Pdg → Type 0
  MemoryIn (def d) g =
      (t : DType) → def_dtype (a.kind inst) (a.kind d) ≡ some t → HasEdge d inst t g
  MemoryIn (clobber d) g = HasEdge d inst danti g
  MemoryIn non_local g =
      (x : ℕ) (rs : List (Option ℕ))
      → non_local_results a inst (a.kind inst) ≡ some rs
      → Memᴰ (some x) rs
      → a.contains x ≡ true
      → HasEdge x inst danti g
  MemoryIn unknown g = Unit

  -- The code has no case for some instructions with a non-local dependence.
  abbrev pub Supported : MemDep → Type 0
  Supported non_local = (rs : List (Option ℕ)) × (non_local_results a inst (a.kind inst) ≡ some rs)
  Supported _ = Unit

module _ (a : Analysis) (insts : List ℕ) (law : IsAnalysis a insts) (inst : ℕ)
    (here : 0 < count inst insts) where
  inside_lem :
      (x u v : ℕ) (t : DType) {g : Pdg}
      → IsConsistent g
      → (0 < count x insts → (0 < count u insts) × (0 < count v insts))
      → Extends insts g (add_edge_inside a x u v t g)
        × (a.contains x ≡ true → HasEdge u v t (add_edge_inside a x u v t g))
  unfolding add_edge_inside
  inside_lem x u v t {g} ok ends = elim (Bool-cases (a.contains x)) [
    | inl e ↦
        let at : add_edge_inside a x u v t g ≡ add_edge u v t g = rw e refl in
        let (hu, hv) = ends (law.inside x e) in
        let (p, new) = add_edge-Extends insts u v t ok hu hv in rw at (p, λ _. new)
    | inr e ↦
        let at : add_edge_inside a x u v t g ≡ g = rw e refl in
        rw at (Extends-refl insts ok, λ h. absurd (cc))
  ]

  add_uses_lem :
      (us : List ℕ) {g : Pdg}
      → IsConsistent g
      → Extends insts g (add_uses a inst us g)
        × ((x : ℕ)
            → 0 < count x us
            → a.contains x ≡ true
            → HasEdge inst x reg (add_uses a inst us g))
  unfolding add_uses
  add_uses_lem [] ok = (Extends-refl insts ok, λ x c h. absurd (omega arith))
  add_uses_lem (y ∷ us) ok =
      let (p, new) = inside_lem y inst y reg ok (λ hy. (here, hy)) in
      let (q, rest) = add_uses_lem us p.ok in
      (
        Extends-trans p q,
        λ x c h. elim (Bool-cases (x == y)) [
          | inl s ↦
              let s' : x ≡ y = eq-of-== x y s in
              rw s' (q.kept (record { u = inst; v = y; dtype = reg }) (new (rw s' at h)))
          | inr s ↦ rest x (ground arith) h
        ],
      )

  add_non_local_lem :
      (rs : List (Option ℕ)) {g : Pdg}
      → IsConsistent g
      → Extends insts g (add_non_local a inst rs g)
        × ((x : ℕ)
            → Memᴰ (some x) rs
            → a.contains x ≡ true
            → HasEdge x inst danti (add_non_local a inst rs g))
  unfolding add_non_local
  add_non_local_lem [] ok = (Extends-refl insts ok, λ x m h. absurd (Memᴰ.not-nil m))
  add_non_local_lem (none ∷ rs) ok =
      let (q, rest) = add_non_local_lem rs ok in
      (q, λ x m h. elim (Memᴰ.cases_cons m) [ inl e ↦ absurd (cc) | inr n ↦ rest x n h ])
  add_non_local_lem (some y ∷ rs) ok =
      let (p, new) = inside_lem y y inst danti ok (λ hy. (hy, here)) in
      let (q, rest) = add_non_local_lem rs p.ok in
      (
        Extends-trans p q,
        λ x m h. elim (Memᴰ.cases_cons m) [
          | inl s ↦
              let s' : x ≡ y = cc in
              rw s' (q.kept (record { u = y; v = inst; dtype = danti }) (new (rw s' at h)))
          | inr n ↦ rest x n h
        ],
      )

  add_edge_if-lem :
      (o : Option DType) (d : ℕ) {g : Pdg}
      → IsConsistent g
      → 0 < count d insts
      → Extends insts g (add_edge_if d inst o g)
        × ((t : DType) → o ≡ some t → HasEdge d inst t (add_edge_if d inst o g))
  add_edge_if-lem none d ok h = (Extends-refl insts ok, λ t e. absurd (cc))
  add_edge_if-lem (some t) d ok h =
      let (p, new) = add_edge-Extends insts d inst t ok h here in
      (p, λ t' e. let same : t ≡ t' = cc in rw (← same) new)

  add_memory_lem :
      (d : MemDep) {g : Pdg}
      → a.dependency inst ≡ d
      → IsConsistent g
      → Supported a inst d
      → (g' : Pdg) × (add_memory a inst d g ≡ some g') × Extends insts g g' × MemoryIn a inst d g'
  unfolding add_memory
  add_memory_lem (def d) {g} e ok s =
      let o = def_dtype (a.kind inst) (a.kind d) in
      let (p, new) = add_edge_if-lem o d ok (law.def_inside inst d here e) in
      (add_edge_if d inst o g, refl, p, new)
  add_memory_lem (clobber d) {g} e ok s =
      let (p, new) =
        add_edge-Extends insts d inst danti ok (law.clobber_inside inst d here e) here in
      (add_edge d inst danti g, refl, p, new)
  add_memory_lem non_local {g} e ok (rs, eq) =
      let (p, new) = add_non_local_lem rs ok in
      (
        add_non_local a inst rs g,
        rw eq,
        p,
        λ x rs' eq' m h. let same : rs ≡ rs' = cc in new x (rw same m) h,
      )
  add_memory_lem unknown {g} e ok s = (g, refl, Extends-refl insts ok, tt)

-- Every dependence of `inst` on, or of, an instruction of the loop that LLVM reports is an edge.
pub record IsCovered (a : Analysis) (inst : ℕ) (g : Pdg) : Type 0 where
  pub uses : (x : ℕ) → 0 < count x (a.users inst) → a.contains x ≡ true → HasEdge inst x reg g
  pub memory : a.may_read_or_write inst ≡ true → MemoryIn a inst (a.dependency inst) g

module _ (a : Analysis) (insts : List ℕ) (law : IsAnalysis a insts) where
  MemoryIn-kept :
      (inst : ℕ) (d : MemDep) {g g' : Pdg}
      → Extends insts g g'
      → MemoryIn a inst d g
      → MemoryIn a inst d g'
  MemoryIn-kept inst (def d) p m = λ t e. p.kept (edge d inst t) (m t e)
  MemoryIn-kept inst (clobber d) p m = p.kept (edge d inst danti) m
  MemoryIn-kept inst non_local p m = λ x rs e n h. p.kept (edge x inst danti) (m x rs e n h)
  MemoryIn-kept inst unknown p m = tt

  pub IsCovered-kept :
      (inst : ℕ) {g g' : Pdg} → Extends insts g g' → IsCovered a inst g → IsCovered a inst g'
  IsCovered-kept inst p c = record {
    uses = λ x n h. p.kept (edge inst x reg) (c.uses x n h);
    memory = λ h. MemoryIn-kept inst (a.dependency inst) p (c.memory h);
  }

  add_inst_lem :
      (inst : ℕ) {g : Pdg}
      → 0 < count inst insts
      → IsConsistent g
      → Supported a inst (a.dependency inst)
      → (g' : Pdg) × (add_inst a inst g ≡ some g') × Extends insts g g' × IsCovered a inst g'
  unfolding add_inst
  add_inst_lem inst {g} here ok s =
      let (p, uses) = add_uses_lem a insts law inst here (a.users inst) ok in
      elim (Bool-cases (a.may_read_or_write inst)) [
        | inl e ↦
            let (g', eq, q, m) =
              add_memory_lem a insts law inst here (a.dependency inst) refl p.ok s in
            (
              g',
              rw e eq,
              Extends-trans p q,
              record { uses = λ x n h. q.kept (edge inst x reg) (uses x n h); memory = λ _. m },
            )
        | inr e ↦ (
          add_uses a inst (a.users inst) g,
          rw e refl,
          p,
          record { uses = uses; memory = λ h. absurd (cc) },
        )
      ]

  -- The first half of `buildPDG` returns, if no instruction has a non-local dependence that the code
  -- has no case for. It keeps the tables of the graph in step, adds edges between instructions of the
  -- loop only, keeps every edge that was there, and has an edge for each use in the loop and for each
  -- memory dependence on an instruction of the loop that LLVM reports.
  pub data_dependences-IsCovered :
      (is : List ℕ) (g : Pdg)
      → ((x : ℕ) → 0 < count x is → (0 < count x insts) × Supported a x (a.dependency x))
      → IsConsistent g
      → (g' : Pdg) × (data_dependences a is g ≡ some g')
        × Extends insts g g'
        × ((x : ℕ) → 0 < count x is → IsCovered a x g')
  unfolding data_dependences
  data_dependences-IsCovered [] g i ok =
      (g, refl, Extends-refl insts ok, λ x c. absurd (omega arith))
  data_dependences-IsCovered (y ∷ is) g i ok =
      let (here, s) = i y (ground arith) in
      let (g', eq, p, c) = add_inst_lem y here ok s in
      let (g'', eq', q, cs) = data_dependences-IsCovered is g' (λ x n. i x (omega arith)) p.ok in
      (
        g'',
        rw eq eq',
        Extends-trans p q,
        λ x n. elim (Bool-cases (x == y)) [
          | inl e ↦ rw (eq-of-== x y e) (IsCovered-kept y q c)
          | inr e ↦ cs x (ground arith)
        ],
      )
