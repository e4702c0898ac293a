-- ===== src/Split/Code/Target/Nearest.antt =====
-- The targets of the branches that `loopSplit` (DSWP_4.cpp) copies, described without its loops.
use dswp_plus.Base.{
  ℕ, zero, suc, ◌≡◌, refl, subst, ◌≤◌, ◌<◌, Bool, true, false, not, ◌&&◌, Option, none, some,
  Option-cases, Bool-cases, List, [], ◌∷◌, ◌==◌, arith, ◌⊎◌, inl, inr,
}
use dswp_plus.Base.Result.{ok, exits}
use dswp_plus.Split.Code.Target.{
  climb, all_to, Cfg, NewInst, cloned, jump, point_successors, point_incoming, make_branch,
  new_inst,
}

-- `n` is the copy of the first block with a copy from `b` upwards.
pub data IsNearest (bb_map up : ℕ → Option ℕ) : ℕ → ℕ → Type 0 where
  here : {b n : ℕ} → bb_map b ≡ some n → IsNearest bb_map up b n
  above :
      {b p n : ℕ}
      → bb_map b ≡ none
      → up b ≡ some p
      → IsNearest bb_map up p n
      → IsNearest bb_map up b n

-- From `b` up to the root no block has a copy.
pub data IsBare (bb_map up : ℕ → Option ℕ) : ℕ → Type 0 where
  root : {b : ℕ} → bb_map b ≡ none → up b ≡ none → IsBare bb_map up b
  under : {b p : ℕ} → bb_map b ≡ none → up b ≡ some p → IsBare bb_map up p → IsBare bb_map up b

-- The blocks form a tree, or trees, of heights below `depth`.
pub record IsTree (up : ℕ → Option ℕ) (depth : ℕ) : Type 0 where
  pub height : ℕ → ℕ
  pub low : (b : ℕ) → height b < depth
  pub rises : (b p : ℕ) → up b ≡ some p → height p < height b

climb_lem :
    (bb_map up : ℕ → Option ℕ) (depth : ℕ) (tree : IsTree up depth) (f b : ℕ)
    → tree.height b < f
    → ((n : ℕ) × (climb f bb_map up b ≡ ok n) × IsNearest bb_map up b n)
      ⊎ ((climb f bb_map up b ≡ exits) × IsBare bb_map up b)
unfolding climb
climb_lem bb_map up depth tree zero b h = absurd (omega arith)
climb_lem bb_map up depth tree (suc f) b h = elim (Option-cases (bb_map b)) [
  | inr (n, e) ↦ inl (n, rw (climb, e) refl, here e)
  | inl e ↦ elim (Option-cases (up b)) [
    | inl u ↦ inr (rw (climb, e, u) refl, root e u)
    | inr (p, u) ↦ elim (climb_lem bb_map up depth tree f p (omega (arith, tree.rises b p u))) [
      | inl (n, eq, near) ↦ inl (n, rw (climb, e, u) eq, above e u near)
      | inr (eq, bare) ↦ inr (rw (climb, e, u) eq, under e u bare)
    ]
  ]
]

-- Let the immediate dominators, or postdominators, form trees. With fuel for their height the climb
-- ends: in the copy of the first block from `b` upwards that the thread has, or in `error` if it has
-- none of the blocks up to the root.
pub climb-IsNearest :
    (bb_map up : ℕ → Option ℕ) (depth : ℕ)
    → IsTree up depth
    → (f b : ℕ) → depth ≤ f
    → ((n : ℕ) × (climb f bb_map up b ≡ ok n) × IsNearest bb_map up b n)
      ⊎ ((climb f bb_map up b ≡ exits) × IsBare bb_map up b)
climb-IsNearest bb_map up depth tree f b h =
    climb_lem bb_map up depth tree f b (omega (arith, tree.low b))

-- The block to which an instruction leads where the old one leads to its block number `i`.
abbrev pub nth : List ℕ → ℕ → Option ℕ
nth [] i = none
nth (x ∷ xs) zero = some x
nth (x ∷ xs) (suc i) = nth xs i

abbrev pub target_at : NewInst → ℕ → Option ℕ
target_at (cloned bs) i = nth bs i
target_at (jump t) i = some t

module _ (c : Cfg) (depth fuel : ℕ) (bb_map : ℕ → Option ℕ) (enough : depth ≤ fuel) where
  -- The blocks of the list have a copy above them, and are of the loop or its exit.
  abbrev pub ArePlaced : List ℕ → Type 0
  ArePlaced [] = Unit
  ArePlaced (b ∷ bs) =
      ((not (b == c.exit) && not (c.contains b)) ≡ false)
      × (¬ IsBare bb_map c.postidom b)
      × ArePlaced bs

  -- The new blocks are the nearest copies of the old ones, in order.
  abbrev pub AreNearest : List ℕ → List ℕ → Type 0
  AreNearest [] [] = Unit
  AreNearest [] (n ∷ ns) = ⊥
  AreNearest (b ∷ bs) [] = ⊥
  AreNearest (b ∷ bs) (n ∷ ns) = IsNearest bb_map c.postidom b n × AreNearest bs ns

  point_successors_lem :
      IsTree c.postidom depth
      → (bs : List ℕ) → ArePlaced bs
      → (ns : List ℕ) × (point_successors c fuel bb_map bs ≡ ok ns) × AreNearest bs ns
  unfolding point_successors
  point_successors_lem tree [] p = ([], refl, tt)
  point_successors_lem tree (b ∷ bs) (inner, full, p) =
      let (ns, eq, near) = point_successors_lem tree bs p in
      elim (climb-IsNearest bb_map c.postidom depth tree fuel b enough) [
        | inl (n, e, first) ↦ (n ∷ ns, rw (inner, e, eq) refl, (first, near))
        | inr (e, bare) ↦ absurd (full bare)
      ]

  all_to_lem :
      (t : ℕ) (bs ns : List ℕ)
      → all_to t ns ≡ true
      → AreNearest bs ns
      → (i b : ℕ) → nth bs i ≡ some b
      → IsNearest bb_map c.postidom b t
  unfolding all_to
  all_to_lem t [] [] h p i b e = absurd (cc)
  all_to_lem t [] (n ∷ ns) h p i b e = absurd (cc)
  all_to_lem t (x ∷ bs) [] h p i b e = absurd p
  all_to_lem t (x ∷ bs) (n ∷ ns) h (near, p) zero b e =
      let same : x ≡ b = cc in
      let target : n ≡ t = ground (arith, h) in
      subst (λ y. IsNearest bb_map c.postidom y t) same
        (subst (IsNearest bb_map c.postidom x) target near)
  all_to_lem t (x ∷ bs) (n ∷ ns) h (near, p) (suc i) b e =
      all_to_lem t bs ns (ground (arith, h)) p i b e

  nth-AreNearest :
      (bs ns : List ℕ)
      → AreNearest bs ns
      → (i b : ℕ) → nth bs i ≡ some b
      → (n : ℕ) × (nth ns i ≡ some n) × IsNearest bb_map c.postidom b n
  nth-AreNearest [] ns p i b e = absurd (cc)
  nth-AreNearest (x ∷ bs) [] p i b e = absurd p
  nth-AreNearest (x ∷ bs) (n ∷ ns) (near, p) zero b e =
      let same : x ≡ b = cc in (n, refl, subst (λ y. IsNearest bb_map c.postidom y n) same near)
  nth-AreNearest (x ∷ bs) (n ∷ ns) (near, p) (suc i) b e = nth-AreNearest bs ns p i b e

  make_branch-AreNearest :
      (invoke : Bool) (bs ns : List ℕ)
      → AreNearest bs ns
      → (i b : ℕ) → nth bs i ≡ some b
      → (n : ℕ) × (target_at (make_branch invoke ns) i ≡ some n) × IsNearest bb_map c.postidom b n
  unfolding make_branch all_to
  make_branch-AreNearest invoke [] ns p i b e = absurd (cc)
  make_branch-AreNearest invoke (x ∷ bs) [] p i b e = absurd p
  make_branch-AreNearest invoke (x ∷ bs) (t ∷ ts) (near, p) i b e =
      elim (Bool-cases (not invoke && all_to t ts)) [
        | inl h ↦
            let all : all_to t (t ∷ ts) ≡ true = ground (arith, h) in
            (t, rw h refl, all_to_lem t (x ∷ bs) (t ∷ ts) all (near, p) i b e)
        | inr h ↦
            let (n, eq, q) = nth-AreNearest (x ∷ bs) (t ∷ ts) (near, p) i b e in (n, rw h eq, q)
      ]

  -- Let the immediate postdominators form trees, not deeper than the fuel, and let every successor of
  -- a terminator be the exit or a block of the loop with a copied block from it upwards. Then the
  -- terminator is copied, and where the old one leads to a block, the new one leads to the copy of the
  -- first postdominator of it, the block itself included, that the thread has. This is so for a
  -- branch that is made unconditional too.
  pub new_inst-IsNearest :
      IsTree c.postidom depth
      → (x : ℕ) → c.is_term x ≡ true
      → ArePlaced (c.successors x)
      → (new : NewInst) × (new_inst c fuel bb_map x ≡ ok new)
        × ((i b : ℕ)
            → nth (c.successors x) i ≡ some b
            → (n : ℕ) × (target_at new i ≡ some n) × IsNearest bb_map c.postidom b n)
  unfolding new_inst
  new_inst-IsNearest tree x t p =
      let (ns, eq, near) = point_successors_lem tree (c.successors x) p in
      (
        make_branch (c.is_invoke x) ns,
        rw (t, eq) refl,
        make_branch-AreNearest (c.is_invoke x) (c.successors x) ns near,
      )

  -- The incoming blocks of a phi node have a copy above them.
  abbrev pub AreReached : List ℕ → Type 0
  AreReached [] = Unit
  AreReached (b ∷ bs) = (¬ IsBare bb_map c.idom b) × AreReached bs

  point_incoming_lem :
      IsTree c.idom depth
      → (bs : List ℕ) → AreReached bs
      → (ns : List ℕ) × (point_incoming c fuel bb_map bs ≡ ok ns)
  unfolding point_incoming
  point_incoming_lem tree [] p = ([], refl)
  point_incoming_lem tree (b ∷ bs) (full, p) =
      let (ns, eq) = point_incoming_lem tree bs p in
      elim (climb-IsNearest bb_map c.idom depth tree fuel b enough) [
        | inl (n, e, top) ↦ (n ∷ ns, rw (e, eq) refl)
        | inr (e, bare) ↦ absurd (full bare)
      ]

  -- What the copying of an instruction needs of its blocks.
  pub record IsPointable (x : ℕ) : Type 0 where
    pub branches : c.is_term x ≡ true → ArePlaced (c.successors x)
    pub arrives : c.is_phi x ≡ true → AreReached (c.incoming x)

  pub new_inst_total :
      IsTree c.postidom depth
      → IsTree c.idom depth
      → (x : ℕ) → IsPointable x
      → (new : NewInst) × (new_inst c fuel bb_map x ≡ ok new)
  unfolding new_inst
  new_inst_total post dom x p = elim (Bool-cases (c.is_term x)) [
    | inl t ↦ let (new, eq, _) = new_inst-IsNearest post x t (p.branches t) in (new, eq)
    | inr t ↦ elim (Bool-cases (c.is_phi x)) [
      | inl f ↦
          let (ns, eq) = point_incoming_lem dom (c.incoming x) (p.arrives f) in
          (cloned ns, rw (t, f, eq) refl)
      | inr f ↦ (cloned [], rw (t, f) refl)
    ]
  ]
