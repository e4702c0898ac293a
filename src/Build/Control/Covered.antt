-- ===== src/Build/Control/Covered.antt =====
-- The control dependences of DSWP_1.cpp: the climb in the postdominator tree, described as a relation.
use dswp_plus.Base.{
  ℕ, zero, suc, ◌≡◌, ◌≢◌, refl, sym, subst, ◌<◌, ◌≤◌, ◌||◌, true, some, List, [], ◌∷◌, ◌==◌, count,
  arith, Bool-cases, inl, inr, ◌⊎◌, eq-of-==,
}
use dswp_plus.Pdg.{control, Pdg, add_edge}
use dswp_plus.Pdg.Tables.{IsConsistent}
use dswp_plus.Build.Extends.{HasEdge, Extends, Extends-refl, Extends-trans, add_edge-Extends}
use dswp_plus.Build.Control.{
  Peeled, add_controlled, climb_tree, add_successors, control_dependences,
}

-- The node `k` steps above.
abbrev pub above : Peeled → ℕ → ℕ → ℕ
above p zero n = n
above p (suc k) n = above p k (p.idom n)

add_controlled_lem :
    (insts : List ℕ) (t : ℕ) (is : List ℕ) {g : Pdg}
    → IsConsistent g
    → 0 < count t insts
    → ((x : ℕ) → 0 < count x is → 0 < count x insts)
    → Extends insts g (add_controlled t is g)
      × ((x : ℕ) → 0 < count x is → HasEdge t x control (add_controlled t is g))
unfolding add_controlled
add_controlled_lem insts t [] ok ht h = (Extends-refl insts ok, λ x c. absurd (omega arith))
add_controlled_lem insts t (i ∷ is) {g} ok ht h =
    let (p, e) = add_edge-Extends insts t i control ok ht (h i (ground arith)) in
    let (q, es) = add_controlled_lem insts t is p.ok ht (λ x c. h x (omega arith)) in
    (
      Extends-trans p q,
      λ x c. elim (Bool-cases (x == i)) [
        | inl s ↦
            subst (λ y. HasEdge t y control (add_controlled t is (add_edge t i control g)))
              (sym (eq-of-== x i s)) (q.kept (record { u = t; v = i; dtype = control }) e)
        | inr s ↦ es x (ground arith)
      ],
    )

-- `dummies` are the dummy blocks but for the exit: their blocks are of the loop, their branches and
-- their immediate postdominators are dummy blocks or the exit, and `nearest` stands above the second
-- block, in a tree of a depth of at most `depth`, as the documentation of the dominator trees has it.
pub record IsPeeled (p : Peeled) (insts dummies : List ℕ) (depth : ℕ) : Type 0 where
  pub inside :
      (n x : ℕ) → 0 < count n dummies → 0 < count x (p.insts_of (p.real n)) → 0 < count x insts
  pub terminators : (n : ℕ) → 0 < count n dummies → 0 < count (p.terminator (p.real n)) insts
  pub closed : (n : ℕ) → 0 < count n dummies → 0 < count (p.idom n) (p.exit_block ∷ dummies)
  pub targets :
      (b s : ℕ)
      → 0 < count b dummies
      → 0 < count s (p.successors b)
      → 0 < count s (p.exit_block ∷ dummies)
  pub dominates :
      (b s : ℕ)
      → 0 < count b dummies
      → 0 < count s (p.exit_block ∷ dummies)
      → (k : ℕ) × (k ≤ depth) × (above p k s ≡ p.nearest b s)

-- The climb from `s` comes to `n`: neither the common postdominator nor the exit is met before it or
-- there.
pub data Meets (p : Peeled) (dn : ℕ) : ℕ → ℕ → Type 0 where
  here : {s : ℕ} → s ≢ dn → s ≢ p.exit_block → Meets p dn s s
  up : {s n : ℕ} → s ≢ dn → s ≢ p.exit_block → Meets p dn (p.idom s) n → Meets p dn s n

module _ (p : Peeled) (insts dummies : List ℕ) (depth : ℕ)
    (law : IsPeeled p insts dummies depth) where
  abbrev nodes : List ℕ
  nodes = p.exit_block ∷ dummies

  -- Every instruction of a block met in the climb depends on the terminator.
  abbrev pub Controls : ℕ → ℕ → ℕ → Pdg → Type 0
  Controls t dn s g =
      (n x : ℕ) → Meets p dn s n → 0 < count x (p.insts_of (p.real n)) → HasEdge t x control g

  Meets-stop : {dn s n : ℕ} → (s == dn || s == p.exit_block) ≡ true → ¬ Meets p dn s n
  Meets-stop h (Meets.here a b) = ground (arith, h, a, b)
  Meets-stop h (Meets.up a b m) = ground (arith, h, a, b)

  Meets-cases : (dn s n : ℕ) → Meets p dn s n → (n ≡ s) ⊎ Meets p dn (p.idom s) n
  Meets-cases dn s n (Meets.here a b) = inl refl
  Meets-cases dn s n (Meets.up a b m) = inr m

  climb_tree_lem :
      (f k t dn s : ℕ) {g : Pdg}
      → IsConsistent g
      → 0 < count t insts
      → 0 < count s nodes
      → k < f
      → above p k s ≡ dn
      → (g' : Pdg) × (climb_tree p f t dn s g ≡ some g') × Extends insts g g' × Controls t dn s g'
  unfolding climb_tree
  climb_tree_lem zero k t dn s ok ht hs h e = absurd (omega arith)
  climb_tree_lem (suc f) zero t dn s {g} ok ht hs h e =
      let stop : (s == dn || s == p.exit_block) ≡ true = ground (arith, e) in
      (g, rw stop refl, Extends-refl insts ok, λ n x m c. absurd (Meets-stop stop m))
  climb_tree_lem (suc f) (suc k) t dn s {g} ok ht hs h e =
      elim (Bool-cases (s == dn || s == p.exit_block)) [
        | inl stop ↦ (g, rw stop refl, Extends-refl insts ok, λ n x m c. absurd (Meets-stop stop m))
        | inr go ↦
            let dummy : 0 < count s dummies = ground (arith, go, hs) in
            let (q, found) =
              add_controlled_lem insts t (p.insts_of (p.real s)) ok ht
                (λ x c. law.inside s x dummy c) in
            let (g', eq, r, rest) =
              climb_tree_lem f k t dn (p.idom s) q.ok ht (law.closed s dummy) (omega arith) e in
            (
              g',
              rw go eq,
              Extends-trans q r,
              λ n x m c. elim (Meets-cases dn s n m) [
                | inl same ↦
                    r.kept (record { u = t; v = x; dtype = control })
                      (found x (subst (λ z. 0 < count x (p.insts_of (p.real z))) same c))
                | inr m' ↦ rest n x m' c
              ],
            )
      ]

  Controls-kept :
      (t dn s : ℕ) {g g' : Pdg} → Extends insts g g' → Controls t dn s g → Controls t dn s g'
  Controls-kept t dn s q c n x m i = q.kept (record { u = t; v = x; dtype = control }) (c n x m i)

  add_successors_lem :
      (f b : ℕ) (ss : List ℕ) {g : Pdg}
      → IsConsistent g
      → 0 < count b dummies
      → ((s : ℕ) → 0 < count s ss → 0 < count s nodes)
      → depth < f
      → (g' : Pdg) × (add_successors p f b ss g ≡ some g')
        × Extends insts g g'
        × ((s : ℕ) → 0 < count s ss → Controls (p.terminator (p.real b)) (p.nearest b s) s g')
  unfolding add_successors
  add_successors_lem f b [] {g} ok hb hs h =
      (g, refl, Extends-refl insts ok, λ s c. absurd (omega arith))
  add_successors_lem f b (y ∷ ss) ok hb hs h =
      let t = p.terminator (p.real b) in
      let node = hs y (ground arith) in
      let (k, low, at) = law.dominates b y hb node in
      let (g', eq, q, c) =
        climb_tree_lem f k t (p.nearest b y) y ok (law.terminators b hb) node (omega arith) at in
      let (g'', eq', r, cs) = add_successors_lem f b ss q.ok hb (λ z m. hs z (omega arith)) h in
      (
        g'',
        rw eq eq',
        Extends-trans q r,
        λ s n. elim (Bool-cases (s == y)) [
          | inl e ↦
              subst (λ z. Controls t (p.nearest b z) z g'') (sym (eq-of-== s y e))
                (Controls-kept t (p.nearest b y) y r c)
          | inr e ↦ cs s (ground arith)
        ],
      )

  control_dependences_lem :
      (f : ℕ) (bs : List ℕ) (g : Pdg)
      → IsConsistent g
      → ((b : ℕ) → 0 < count b bs → 0 < count b dummies)
      → depth < f
      → (g' : Pdg) × (control_dependences p f bs g ≡ some g')
        × Extends insts g g'
        × ((b s : ℕ)
            → 0 < count b bs
            → 0 < count s (p.successors b)
            → Controls (p.terminator (p.real b)) (p.nearest b s) s g')
  unfolding control_dependences
  control_dependences_lem f [] g ok hb h =
      (g, refl, Extends-refl insts ok, λ b s c. absurd (omega arith))
  control_dependences_lem f (y ∷ bs) g ok hb h =
      let dummy = hb y (ground arith) in
      let (g', eq, q, c) =
        add_successors_lem f y (p.successors y) ok dummy (λ s m. law.targets y s dummy m) h in
      let (g'', eq', r, cs) = control_dependences_lem f bs g' q.ok (λ b m. hb b (omega arith)) h in
      (
        g'',
        rw eq eq',
        Extends-trans q r,
        λ b s n m. elim (Bool-cases (b == y)) [
          | inl e ↦
              let same = eq-of-== b y e in
              let m' = subst (λ z. 0 < count s (p.successors z)) same m in
              subst (λ z. Controls (p.terminator (p.real z)) (p.nearest z s) s g'') (sym same)
                (Controls-kept (p.terminator (p.real y)) (p.nearest y s) s r (c s m'))
          | inr e ↦ cs b s (ground arith) m
        ],
      )

  -- Let the peeled loop consist of blocks of the loop, and let the nearest common postdominator of
  -- two dummy blocks stand at most `depth` steps above the second. With fuel for `depth` steps the
  -- last part of `buildPDG` returns: it keeps the tables in step and every edge that was there, adds
  -- edges between instructions of the loop only, and makes every instruction depend on the terminator
  -- of a dummy block whose real block is met on the way up from a successor, before the common
  -- postdominator and the exit.
  pub control_dependences-IsCovered :
      (f : ℕ) (g : Pdg)
      → IsConsistent g
      → depth < f
      → (g' : Pdg) × (control_dependences p f dummies g ≡ some g')
        × Extends insts g g'
        × ((b s : ℕ)
            → 0 < count b dummies
            → 0 < count s (p.successors b)
            → Controls (p.terminator (p.real b)) (p.nearest b s) s g')
  control_dependences-IsCovered f g ok h = control_dependences_lem f dummies g ok (λ b c. c) h
