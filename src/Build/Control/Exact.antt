-- ===== src/Build/Control/Exact.antt =====
-- Which control edges `buildPDG` (DSWP_1.cpp) adds, by postdominance.
use dswp_plus.Base.{
  ℕ, zero, suc, ◌≡◌, ◌≢◌, ◌↔◌, refl, sym, subst, ◌<◌, ◌||◌, none, some, Option-cases, List, [], ◌∷◌,
  ◌==◌, count, arith, Bool-cases, inl, inr, ◌⊎◌,
}
use dswp_plus.Pdg.{control, Edge, Pdg, add_edge}
use dswp_plus.Pdg.Tables.{IsConsistent}
use dswp_plus.Build.Extends.{Extends}
use dswp_plus.Build.Only.{Has, IsEdge, HasEdge-Has, Only, Only-refl, Only-trans, add_edge-Only}
use dswp_plus.Build.Control.{
  Peeled, add_controlled, climb_tree, add_successors, control_dependences,
}
use dswp_plus.Build.Control.Covered.{IsPeeled, Meets, control_dependences-IsCovered}
use dswp_plus.Build.Control.PostDominators.{Postdominates, IsTree, Meets-Postdominates}

add_controlled-Only :
    (t : ℕ) (is : List ℕ) (g : Pdg)
    → IsConsistent g
    → Only (λ e. (x : ℕ) × (0 < count x is) × IsEdge t x control e) g (add_controlled t is g)
unfolding add_controlled
add_controlled-Only t [] g ok = Only-refl ok
add_controlled-Only t (i ∷ is) g ok =
    let p = add_edge-Only t i control g ok in
    Only-trans p (add_controlled-Only t is (add_edge t i control g) p.ok)
      (λ e q. (i, ground arith, q)) (λ e (x, c, q). (x, omega (arith, c), q))

module _ (p : Peeled) where
  -- A control edge from `t` to an instruction of a block met in the climb.
  abbrev Climbed : ℕ → ℕ → ℕ → Edge → Type 0
  Climbed t dn s e =
      (n x : ℕ) × Meets p dn s n × (0 < count x (p.insts_of (p.real n))) × IsEdge t x control e

  climb_tree-Only :
      (f t dn s : ℕ) (g g' : Pdg)
      → IsConsistent g
      → climb_tree p f t dn s g ≡ some g'
      → Only (Climbed t dn s) g g'
  unfolding climb_tree
  climb_tree-Only zero t dn s g g' ok h = absurd (cc)
  climb_tree-Only (suc f) t dn s g g' ok h = elim (Bool-cases (s == dn || s == p.exit_block)) [
    | inl stop ↦
        let same : some g ≡ some g' = rw stop at h in
        let same' : g ≡ g' = cc in subst (Only (Climbed t dn s) g) same' (Only-refl ok)
    | inr go ↦
        let a : s ≢ dn = λ q. ground (arith, go, q) in
        let b : s ≢ p.exit_block = λ q. ground (arith, go, q) in
        let now = add_controlled-Only t (p.insts_of (p.real s)) g ok in
        Only-trans now (climb_tree-Only f t dn (p.idom s) _ g' now.ok (rw go at h))
          (λ e (x, i, q). (s, x, Meets.here a b, i, q))
          (λ e (n, x, m, i, q). (n, x, Meets.up a b m, i, q))
  ]

  -- A control edge from the terminator of the dummy block `b`, by one of the successors.
  abbrev FromBlock : ℕ → List ℕ → Edge → Type 0
  FromBlock b ss e =
      (s : ℕ) × (0 < count s ss) × Climbed (p.terminator (p.real b)) (p.nearest b s) s e

  add_successors-Only :
      (f b : ℕ) (ss : List ℕ) (g g' : Pdg)
      → IsConsistent g
      → add_successors p f b ss g ≡ some g'
      → Only (FromBlock b ss) g g'
  unfolding add_successors
  add_successors-Only f b [] g g' ok h =
      let same : g ≡ g' = cc in subst (Only (FromBlock b []) g) same (Only-refl ok)
  add_successors-Only f b (s ∷ ss) g g' ok h =
      elim (Option-cases (climb_tree p f (p.terminator (p.real b)) (p.nearest b s) s g)) [
        | inl e ↦ let out : none ≡ some g' = rw e at h in absurd (cc)
        | inr (g1, e) ↦
            let now = climb_tree-Only f (p.terminator (p.real b)) (p.nearest b s) s g g1 ok e in
            Only-trans now (add_successors-Only f b ss g1 g' now.ok (rw e at h))
              (λ d q. (s, ground arith, q)) (λ d (z, c, q). (z, omega (arith, c), q))
      ]

  control_dependences-Only :
      (f : ℕ) (bs : List ℕ) (g g' : Pdg)
      → IsConsistent g
      → control_dependences p f bs g ≡ some g'
      → Only (λ e. (b : ℕ) × (0 < count b bs) × FromBlock b (p.successors b) e) g g'
  unfolding control_dependences
  control_dependences-Only f [] g g' ok h =
      let same : g ≡ g' = cc in
      subst (Only (λ e. (b : ℕ) × (0 < count b []) × FromBlock b (p.successors b) e) g) same
        (Only-refl ok)
  control_dependences-Only f (b ∷ bs) g g' ok h =
      elim (Option-cases (add_successors p f b (p.successors b) g)) [
        | inl e ↦ let out : none ≡ some g' = rw e at h in absurd (cc)
        | inr (g1, e) ↦
            let now = add_successors-Only f b (p.successors b) g g1 ok e in
            Only-trans now (control_dependences-Only f bs g1 g' now.ok (rw e at h))
              (λ d q. (b, ground arith, q)) (λ d (z, c, q). (z, omega (arith, c), q))
      ]

-- By paths: the instruction `e.v` stands in the block of a dummy block that postdominates a successor of
-- another dummy block, but not that one itself, and `e.u` is the terminator of that one's block.
pub record IsControl (p : Peeled) (dummies : List ℕ) (e : Edge) : Type 0 where
  pub branch : ℕ
  pub successor : ℕ
  pub block : ℕ
  pub listed : 0 < count branch dummies
  pub leads : 0 < count successor (p.successors branch)
  pub before_exit : block ≢ p.exit_block
  pub postdominates : Postdominates p block successor
  pub decides : ¬ Postdominates p block branch
  pub source : e.u ≡ p.terminator (p.real branch)
  pub target : 0 < count e.v (p.insts_of (p.real block))
  pub dtype : e.dtype ≡ control

module _ (p : Peeled) (insts dummies : List ℕ) (depth : ℕ) (law : IsPeeled p insts dummies depth)
    (tree : IsTree p (p.exit_block ∷ dummies) depth) where
  FromBlock-IsControl :
      (e : Edge) (b : ℕ)
      → 0 < count b dummies
      → FromBlock p b (p.successors b) e
      → IsControl p dummies e
  FromBlock-IsControl e b cb (s, cs, (n, x, m, i, (u, v, d))) =
      let node = law.targets b s cb cs in
      let (ne, post, not_post) =
        (Meets-Postdominates p (p.exit_block ∷ dummies) depth tree b s n (ground (arith, cb))
            node).0
          m in
      record {
        branch = b;
        successor = s;
        block = n;
        listed = cb;
        leads = cs;
        before_exit = ne;
        postdominates = post;
        decides = not_post;
        source = u;
        target = subst (λ z. 0 < count z (p.insts_of (p.real n))) (sym v) i;
        dtype = d;
      }

  -- Let the peeled loop consist of blocks of the loop, with the exit reachable from each, and let LLVM's
  -- tree be that of its postdominators. With fuel for the depth of the tree the last part of `buildPDG`
  -- returns, with the tables in step. An edge is in the graph then if and only if it was there before or
  -- is a control dependence by paths: on the terminator of a block, of the instructions of a block that
  -- every path from one of its successors to the exit goes through, but not every path from it.
  pub control_dependences-IsControl :
      (f : ℕ) (g : Pdg)
      → IsConsistent g
      → depth < f
      → (g' : Pdg) × (control_dependences p f dummies g ≡ some g')
        × Extends insts g g'
        × ((e : Edge) → Has e g' ↔ (Has e g ⊎ IsControl p dummies e))
  control_dependences-IsControl f g ok h =
      let (g', eq, q, cover) = control_dependences-IsCovered p insts dummies depth law f g ok h in
      let o = control_dependences-Only p f dummies g g' ok eq in
      (
        g',
        eq,
        q,
        λ e. (
          λ c. elim (o.only e c) [
            | inl old ↦ inl old
            | inr (b, cb, from) ↦ inr (FromBlock-IsControl e b cb from)
          ],
          λ c. elim c [
            | inl old ↦ q.kept e old
            | inr k ↦
                let node = law.targets k.branch k.successor k.listed k.leads in
                let m =
                  (Meets-Postdominates p (p.exit_block ∷ dummies) depth tree k.branch k.successor
                      k.block (ground (arith, k.listed)) node).1
                    (k.before_exit, k.postdominates, k.decides) in
                HasEdge-Has (p.terminator (p.real k.branch)) e.v control e g'
                  (k.source, refl, k.dtype)
                  (cover k.branch k.successor k.listed k.leads k.block e.v m k.target)
          ],
        ),
      )
