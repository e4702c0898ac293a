-- ===== src/Build/Data/Exact.antt =====
-- Which edges the first half of `buildPDG` (DSWP_1.cpp) adds.
use mathlib.Core.List.{Memᴰ}
use dswp_plus.Base.{
  ℕ, ◌≡◌, ◌↔◌, refl, sym, subst, ◌<◌, true, Option, none, some, Option-cases, List, [], ◌∷◌, count,
  arith, Bool-cases, inl, inr, ◌⊎◌,
}
use dswp_plus.Pdg.{DType, reg, danti, Edge, Pdg, add_edge}
use dswp_plus.Pdg.Tables.{IsConsistent}
use dswp_plus.Build.Extends.{Extends}
use dswp_plus.Build.Only.{
  Has, IsEdge, HasEdge-Has, Only, Only-refl, Only-trans, Only-map, add_edge-Only,
}
use dswp_plus.Build.Data.{
  MemDep, def, clobber, non_local, unknown, Analysis, def_dtype, add_edge_if, add_edge_inside,
  add_uses, add_non_local, non_local_results, add_memory, add_inst, data_dependences,
}
use dswp_plus.Build.Data.Edges.{IsAnalysis, Supported, MemoryIn, data_dependences-IsCovered}

module _ (a : Analysis) where
  -- The edge into `inst` is a memory dependence that LLVM reports.
  abbrev pub Reported : ℕ → MemDep → Edge → Type 0
  Reported inst (def d) e = (e.u ≡ d) × (def_dtype (a.kind inst) (a.kind d) ≡ some e.dtype)
  Reported inst (clobber d) e = (e.u ≡ d) × (e.dtype ≡ danti)
  Reported inst non_local e =
      (rs : List (Option ℕ)) × (non_local_results a inst (a.kind inst) ≡ some rs)
      × Memᴰ (some e.u) rs
      × (a.contains e.u ≡ true)
      × (e.dtype ≡ danti)
  Reported inst unknown e = ⊥

  -- The edge leads from an instruction to a use of it in the loop.
  abbrev pub IsUse : Edge → Type 0
  IsUse e = (0 < count e.v (a.users e.u)) × (a.contains e.v ≡ true) × (e.dtype ≡ reg)

  -- A register dependence of one of the instructions, or a memory dependence on one.
  abbrev pub IsData : List ℕ → Edge → Type 0
  IsData insts e =
      ((0 < count e.u insts) × IsUse e)
      ⊎ ((0 < count e.v insts)
          × (a.may_read_or_write e.v ≡ true)
          × Reported e.v (a.dependency e.v) e)

  add_edge_inside-Only :
      (x u v : ℕ) (t : DType) (g : Pdg)
      → IsConsistent g
      → Only (λ e. (a.contains x ≡ true) × IsEdge u v t e) g (add_edge_inside a x u v t g)
  unfolding add_edge_inside
  add_edge_inside-Only x u v t g ok = elim (Bool-cases (a.contains x)) [
    | inl h ↦ rw h (Only-map (add_edge-Only u v t g ok) (λ e q. (refl, q)))
    | inr h ↦ rw h (Only-refl ok)
  ]

  -- The edges of one instruction.
  abbrev FromUses : ℕ → List ℕ → Edge → Type 0
  FromUses inst us e = (x : ℕ) × (0 < count x us) × (a.contains x ≡ true) × IsEdge inst x reg e

  add_uses-Only :
      (inst : ℕ) (us : List ℕ) (g : Pdg)
      → IsConsistent g
      → Only (FromUses inst us) g (add_uses a inst us g)
  unfolding add_uses
  add_uses-Only inst [] g ok = Only-refl ok
  add_uses-Only inst (y ∷ us) g ok =
      let p = add_edge_inside-Only y inst y reg g ok in
      Only-trans p (add_uses-Only inst us (add_edge_inside a y inst y reg g) p.ok)
        (λ e (h, q). (y, ground arith, h, q)) (λ e (x, c, h, q). (x, omega (arith, c), h, q))

  abbrev FromResults : ℕ → List (Option ℕ) → Edge → Type 0
  FromResults inst rs e = (x : ℕ) × Memᴰ (some x) rs × (a.contains x ≡ true) × IsEdge x inst danti e

  add_non_local-Only :
      (inst : ℕ) (rs : List (Option ℕ)) (g : Pdg)
      → IsConsistent g
      → Only (FromResults inst rs) g (add_non_local a inst rs g)
  unfolding add_non_local
  add_non_local-Only inst [] g ok = Only-refl ok
  add_non_local-Only inst (none ∷ rs) g ok =
      Only-map (add_non_local-Only inst rs g ok) (λ e (x, m, h, q). (x, Memᴰ.tail m, h, q))
  add_non_local-Only inst (some y ∷ rs) g ok =
      let p = add_edge_inside-Only y y inst danti g ok in
      Only-trans p (add_non_local-Only inst rs (add_edge_inside a y y inst danti g) p.ok)
        (λ e (h, q). (y, Memᴰ.head refl, h, q)) (λ e (x, m, h, q). (x, Memᴰ.tail m, h, q))

  add_edge_if-Only :
      (u v : ℕ) (o : Option DType) (g : Pdg)
      → IsConsistent g
      → Only (λ e. (e.u ≡ u) × (e.v ≡ v) × (o ≡ some e.dtype)) g (add_edge_if u v o g)
  add_edge_if-Only u v none g ok = Only-refl ok
  add_edge_if-Only u v (some t) g ok =
      Only-map (add_edge-Only u v t g ok) (λ e (hu, hv, ht). (hu, hv, cc))

  abbrev IntoInst : ℕ → MemDep → Edge → Type 0
  IntoInst inst d e = (e.v ≡ inst) × Reported inst d e

  add_memory-Only :
      (inst : ℕ) (d : MemDep) (g g' : Pdg)
      → IsConsistent g
      → add_memory a inst d g ≡ some g'
      → Only (IntoInst inst d) g g'
  unfolding add_memory
  add_memory-Only inst (def d) g g' ok h =
      let same : add_edge_if d inst (def_dtype (a.kind inst) (a.kind d)) g ≡ g' = cc in
      subst (Only (IntoInst inst (def d)) g) same (
        Only-map (add_edge_if-Only d inst (def_dtype (a.kind inst) (a.kind d)) g ok)
          (λ e (hu, hv, ht). (hv, (hu, ht))))
  add_memory-Only inst (clobber d) g g' ok h =
      let same : add_edge d inst danti g ≡ g' = cc in
      subst (Only (IntoInst inst (clobber d)) g) same
        (Only-map (add_edge-Only d inst danti g ok) (λ e (hu, hv, ht). (hv, (hu, ht))))
  add_memory-Only inst non_local g g' ok h =
      elim (Option-cases (non_local_results a inst (a.kind inst))) [
        | inl none_eq ↦ let out : none ≡ some g' = rw none_eq at h in absurd (cc)
        | inr (rs, eq) ↦
            let out : some (add_non_local a inst rs g) ≡ some g' = rw eq at h in
            let same : add_non_local a inst rs g ≡ g' = cc in
            subst (Only (IntoInst inst non_local) g) same (
              Only-map (add_non_local-Only inst rs g ok) (λ e (x, m, c, (hu, hv, ht)). (
                hv,
                (
                  rs,
                  eq,
                  subst (λ z. Memᴰ (some z) rs) (sym hu) m,
                  subst (λ z. a.contains z ≡ true) (sym hu) c,
                  ht,
                ),
              )))
      ]
  add_memory-Only inst unknown g g' ok h =
      let same : g ≡ g' = cc in subst (Only (IntoInst inst unknown) g) same (Only-refl ok)

  FromUses-IsData : (inst : ℕ) (e : Edge) → FromUses inst (a.users inst) e → IsData (inst ∷ []) e
  FromUses-IsData inst e (x, c, h, (hu, hv, ht)) = inl (
    ground (arith, hu),
    (
      subst (λ z. 0 < count e.v (a.users z)) (sym hu)
          (subst (λ z. 0 < count z (a.users inst)) (sym hv) c),
      subst (λ z. a.contains z ≡ true) (sym hv) h,
      ht,
    ),
  )

  IntoInst-IsData :
      (inst : ℕ) (e : Edge)
      → a.may_read_or_write inst ≡ true
      → IntoInst inst (a.dependency inst) e
      → IsData (inst ∷ []) e
  IntoInst-IsData inst e h (hv, r) = inr (
    ground (arith, hv),
    subst (λ z. a.may_read_or_write z ≡ true) (sym hv) h,
    subst (λ z. Reported z (a.dependency z) e) (sym hv) r,
  )

  add_inst-Only :
      (inst : ℕ) (g g' : Pdg)
      → IsConsistent g
      → add_inst a inst g ≡ some g'
      → Only (IsData (inst ∷ [])) g g'
  unfolding add_inst
  add_inst-Only inst g g' ok h =
      let p = add_uses-Only inst (a.users inst) g ok in
      elim (Bool-cases (a.may_read_or_write inst)) [
        | inl w ↦
            Only-trans p (add_memory-Only inst (a.dependency inst) _ g' p.ok (rw w at h))
              (FromUses-IsData inst) (λ e q. IntoInst-IsData inst e w q)
        | inr w ↦
            let out : some (add_uses a inst (a.users inst) g) ≡ some g' = rw w at h in
            let same : add_uses a inst (a.users inst) g ≡ g' = cc in
            subst (Only (IsData (inst ∷ [])) g) same (Only-map p (FromUses-IsData inst))
      ]

  IsData-mono :
      (is js : List ℕ) (e : Edge)
      → ((x : ℕ) → 0 < count x is → 0 < count x js)
      → IsData is e
      → IsData js e
  IsData-mono is js e h (inl (c, q)) = inl (h e.u c, q)
  IsData-mono is js e h (inr (c, w, q)) = inr (h e.v c, w, q)

  data_dependences-Only :
      (is : List ℕ) (g g' : Pdg)
      → IsConsistent g
      → data_dependences a is g ≡ some g'
      → Only (IsData is) g g'
  unfolding data_dependences
  data_dependences-Only [] g g' ok h =
      let same : g ≡ g' = cc in subst (Only (IsData []) g) same (Only-refl ok)
  data_dependences-Only (y ∷ is) g g' ok h = elim (Option-cases (add_inst a y g)) [
    | inl e ↦ let out : none ≡ some g' = rw e at h in absurd (cc)
    | inr (g1, e) ↦
        let now = add_inst-Only y g g1 ok e in
        Only-trans now (data_dependences-Only is g1 g' now.ok (rw e at h))
          (λ d q. IsData-mono (y ∷ []) (y ∷ is) d (λ x c. ground (arith, c)) q)
          (λ d q. IsData-mono is (y ∷ is) d (λ x c. ground (arith, c)) q)
  ]

  module _ (insts : List ℕ) (law : IsAnalysis a insts) where
    MemoryIn-Has :
        (d : MemDep) (e : Edge) (g : Pdg) → MemoryIn a e.v d g → Reported e.v d e → Has e g
    MemoryIn-Has (def d) e g m (hu, ht) =
        HasEdge-Has d e.v e.dtype e g (hu, refl, refl) (m e.dtype ht)
    MemoryIn-Has (clobber d) e g m (hu, ht) = HasEdge-Has d e.v danti e g (hu, refl, ht) m
    MemoryIn-Has non_local e g m (rs, eq, n, c, ht) =
        HasEdge-Has e.u e.v danti e g (refl, refl, ht) (m e.u rs eq n c)
    MemoryIn-Has unknown e g m r = absurd r

    -- If no instruction has a non-local dependence that the code has no case for, then the first half of
    -- `buildPDG` returns, with the tables in step and edges within the loop only. An edge is in the graph
    -- then if and only if it was there before, or leads from an instruction to a use of it in the loop,
    -- or is a memory dependence of the loop that LLVM reports, with the type that the code tells by the
    -- kinds of the two instructions.
    pub data_dependences-IsData :
        (g : Pdg)
        → ((x : ℕ) → 0 < count x insts → Supported a x (a.dependency x))
        → IsConsistent g
        → (g' : Pdg) × (data_dependences a insts g ≡ some g')
          × Extends insts g g'
          × ((e : Edge) → Has e g' ↔ (Has e g ⊎ IsData insts e))
    data_dependences-IsData g supported ok =
        let (g', eq, q, cover) =
          data_dependences-IsCovered a insts law insts g (λ x c. (c, supported x c)) ok in
        (
          g',
          eq,
          q,
          λ e. (
            (data_dependences-Only insts g g' ok eq).only e,
            λ c. elim c [
              | inl old ↦ q.kept e old
              | inr d ↦ elim d [
                | inl (hu, (hv, hc, ht)) ↦
                    HasEdge-Has e.u e.v reg e g' (refl, refl, ht) ((cover e.u hu).uses e.v hv hc)
                | inr (hv, w, r) ↦ MemoryIn-Has (a.dependency e.v) e g' ((cover e.v hv).memory w) r
              ]
            ],
          ),
        )
