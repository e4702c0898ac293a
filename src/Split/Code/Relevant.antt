-- ===== src/Split/Code/Relevant.antt =====
-- The blocks that a thread uses or depends on: lines 207 to 228 of DSWP_4.cpp.
use dswp_plus.Base.{
  ℕ, ◌≡◌, subst, ◌<◌, List, [], ◌∷◌, ◌==◌, ltb, if◌then◌else◌, count, get_or, arith, Bool-cases,
  inl, inr, eq-of-==, ◌⊎◌, ◌↔◌,
}
use dswp_plus.Pdg.{Pdg, targets}

-- `insert` of a `std::set` of pointers, which is iterated in the order of the addresses.
unfoldable pub set_insert : ℕ → List ℕ → List ℕ
set_insert b [] = b ∷ []
set_insert b (x ∷ xs) =
    let rest = set_insert b xs in
    if b == x then x ∷ xs else if ltb b x then b ∷ x ∷ xs else x ∷ rest

-- `parent` is `getParent`.
module _ (parent : ℕ → ℕ) (g : Pdg) where
  -- The loop over the edges of `rev[inst]`, by their ends.
  unfoldable pub add_parents : List ℕ → List ℕ → List ℕ
  unfolding set_insert
  add_parents [] rel = rel
  add_parents (dep ∷ deps) rel = add_parents deps (set_insert (parent dep) rel)

  -- The loop over the instructions of a component.
  unfoldable pub add_members : List ℕ → List ℕ → List ℕ
  unfolding add_parents
  add_members [] rel = rel
  add_members (inst ∷ insts) rel =
      add_members insts (add_parents (targets (g.rev inst)) (set_insert (parent inst) rel))

  -- The loop over `part[i]`.
  unfoldable pub relevant_blocks : List (List ℕ) → List ℕ → List ℕ → List ℕ
  unfolding add_members
  relevant_blocks in_scc [] rel = rel
  relevant_blocks in_scc (scc ∷ sccs) rel =
      relevant_blocks in_scc sccs (add_members (get_or in_scc scc []) rel)

abbrev pub IsAbove : ℕ → List ℕ → Type 0
IsAbove b [] = Unit
IsAbove b (x ∷ xs) = b < x

-- The list is in ascending order, without repetition.
abbrev pub IsAscending : List ℕ → Type 0
IsAscending [] = Unit
IsAscending (x ∷ xs) = IsAbove x xs × IsAscending xs

IsAbove-set_insert : (a b : ℕ) (l : List ℕ) → IsAbove a l → a < b → IsAbove a (set_insert b l)
unfolding set_insert
IsAbove-set_insert a b [] p h = h
IsAbove-set_insert a b (x ∷ xs) p h = elim (Bool-cases (b == x)) [
  | inl e ↦ rw e p
  | inr e ↦ elim (Bool-cases (ltb b x)) [ inl k ↦ rw (e, k) h | inr k ↦ rw (e, k) p ]
]

IsAscending-set_insert : (b : ℕ) (l : List ℕ) → IsAscending l → IsAscending (set_insert b l)
unfolding set_insert
IsAscending-set_insert b [] p = (tt, tt)
IsAscending-set_insert b (x ∷ xs) p = elim (Bool-cases (b == x)) [
  | inl e ↦ rw e p
  | inr e ↦ elim (Bool-cases (ltb b x)) [
    | inl k ↦ rw (e, k) (ground (arith, k), p)
    | inr k ↦
        rw (e, k)
          (IsAbove-set_insert x b xs p.0 (ground (arith, e, k)), IsAscending-set_insert b xs p.1)
  ]
]

set_insert-cases :
    (b x : ℕ) (l : List ℕ) → (0 < count x (set_insert b l)) ↔ ((x ≡ b) ⊎ (0 < count x l))
unfolding set_insert
set_insert-cases b x [] = (λ h. ground arith, λ h. ground arith)
set_insert-cases b x (y ∷ ys) =
    let (f, k) = set_insert-cases b x ys in (λ h. ground (arith, f), λ h. ground (arith, k))

-- Some element of the list has the property.
abbrev pub Some : (ℕ → Type 0) → List ℕ → Type 0
Some P l = (x : ℕ) × (0 < count x l) × P x

Some-cons : (P : ℕ → Type 0) (y : ℕ) (ys : List ℕ) → Some P (y ∷ ys) ↔ (P y ⊎ Some P ys)
Some-cons P y ys = (
  λ s. elim (Bool-cases (s.0 == y)) [
    | inl e ↦ inl (subst P (eq-of-== s.0 y e) s.2)
    | inr e ↦ inr (s.0, ground (arith, s.1), s.2)
  ],
  λ s. elim s [ inl p ↦ (y, ground arith, p) | inr t ↦ (t.0, ground (arith, t.1), t.2) ],
)

module _ (parent : ℕ → ℕ) (g : Pdg) where
  -- The block of the instruction, or of one that it depends on.
  abbrev pub IsNear : ℕ → ℕ → Type 0
  IsNear b inst = (b ≡ parent inst) ⊎ Some (λ dep. b ≡ parent dep) (targets (g.rev inst))

  -- The block is near an instruction of one of the components.
  abbrev pub IsRelevant : List (List ℕ) → List ℕ → ℕ → Type 0
  IsRelevant in_scc sccs b = Some (λ scc. Some (IsNear b) (get_or in_scc scc [])) sccs

  -- What one part of the loops adds: the set stays one, keeps its blocks, and gets those of `P`.
  record Adds (P : ℕ → Type 0) (rel rel' : List ℕ) : Type 0 where
    pub ascending : IsAscending rel → IsAscending rel'
    pub kept : (b : ℕ) → 0 < count b rel → 0 < count b rel'
    pub added : (b : ℕ) → P b → 0 < count b rel'
    pub only : (b : ℕ) → 0 < count b rel' → (0 < count b rel) ⊎ P b

  Adds-trans :
      {P Q R : ℕ → Type 0} {k l m : List ℕ}
      → Adds P k l
      → Adds Q l m
      → ((b : ℕ) → R b ↔ (P b ⊎ Q b))
      → Adds R k m
  Adds-trans p q r = record {
    ascending = λ h. q.ascending (p.ascending h);
    kept = λ b h. q.kept b (p.kept b h);
    added = λ b h. elim ((r b).0 h) [ inl a ↦ q.kept b (p.added b a) | inr a ↦ q.added b a ];
    only = λ b h. elim (q.only b h) [
      | inl a ↦ elim (p.only b a) [ inl c ↦ inl c | inr c ↦ inr ((r b).1 (inl c)) ]
      | inr a ↦ inr ((r b).1 (inr a))
    ];
  }

  insert-Adds : (c : ℕ) (rel : List ℕ) → Adds (λ b. b ≡ c) rel (set_insert c rel)
  insert-Adds c rel = record {
    ascending = IsAscending-set_insert c rel;
    kept = λ b h. (set_insert-cases c b rel).1 (inr h);
    added = λ b h. (set_insert-cases c b rel).1 (inl h);
    only = λ b h. elim ((set_insert-cases c b rel).0 h) [ inl e ↦ inr e | inr k ↦ inl k ];
  }

  nothing-Adds : (P : ℕ → ℕ → Type 0) (rel : List ℕ) → Adds (λ b. Some (P b) []) rel rel
  nothing-Adds P rel = record {
    ascending = λ h. h;
    kept = λ b h. h;
    added = λ b h. absurd (omega (arith, h.1));
    only = λ b h. inl h;
  }

  add_parents-Adds :
      (deps rel : List ℕ)
      → Adds (λ b. Some (λ dep. b ≡ parent dep) deps) rel (add_parents parent g deps rel)
  unfolding add_parents
  add_parents-Adds [] rel = nothing-Adds (λ b dep. b ≡ parent dep) rel
  add_parents-Adds (d ∷ deps) rel =
      Adds-trans (insert-Adds (parent d) rel) (add_parents-Adds deps (set_insert (parent d) rel))
        (λ b. Some-cons (λ dep. b ≡ parent dep) d deps)

  add_members-Adds :
      (insts rel : List ℕ) → Adds (λ b. Some (IsNear b) insts) rel (add_members parent g insts rel)
  unfolding add_members
  add_members-Adds [] rel = nothing-Adds IsNear rel
  add_members-Adds (x ∷ insts) rel =
      let own = insert-Adds (parent x) rel in
      let near = add_parents-Adds (targets (g.rev x)) (set_insert (parent x) rel) in
      let one : Adds (λ b. IsNear b x) rel
          (add_parents parent g (targets (g.rev x)) (set_insert (parent x) rel)) =
        Adds-trans own near (λ b. (λ h. h, λ h. h)) in
      Adds-trans one (add_members-Adds insts _) (λ b. Some-cons (IsNear b) x insts)

  relevant_blocks-Adds :
      (in_scc : List (List ℕ)) (sccs rel : List ℕ)
      → Adds (IsRelevant in_scc sccs) rel (relevant_blocks parent g in_scc sccs rel)
  unfolding relevant_blocks
  relevant_blocks-Adds in_scc [] rel =
      nothing-Adds (λ b scc. Some (IsNear b) (get_or in_scc scc [])) rel
  relevant_blocks-Adds in_scc (k ∷ sccs) rel =
      Adds-trans (add_members-Adds (get_or in_scc k []) rel) (relevant_blocks-Adds in_scc sccs _)
        (λ b. Some-cons (λ scc. Some (IsNear b) (get_or in_scc scc [])) k sccs)

  -- `relbb` lists its blocks in ascending order, each once. It has a block if and only if that is the
  -- block of an instruction of the thread's components or of an instruction on which one of them
  -- depends.
  pub relevant_blocks-IsRelevant :
      (in_scc : List (List ℕ)) (sccs : List ℕ)
      → let rel = relevant_blocks parent g in_scc sccs [] in
        IsAscending rel × ((b : ℕ) → (0 < count b rel) ↔ IsRelevant in_scc sccs b)
  relevant_blocks-IsRelevant in_scc sccs =
      let a = relevant_blocks-Adds in_scc sccs [] in
      (
        a.ascending tt,
        λ b. (
          λ h. elim (a.only b h) [ inl n ↦ absurd (omega (arith, n)) | inr r ↦ r ],
          λ r. a.added b r,
        ),
      )
