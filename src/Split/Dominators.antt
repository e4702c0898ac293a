-- ===== src/Split/Dominators.antt =====
-- `DSWP::getDominators` (DSWP_4.cpp): the tables of immediate dominators and postdominators.
use dswp_plus.Base.{
  ℕ, ◌≡◌, refl, sym, ap, ◌∙◌, ◌<◌, true, Option, none, some, List, [], ◌∷◌, ◌>>=◌, update, count,
  arith, ◌==◌, Bool-cases, inl, inr, ◌⊎◌, eq-of-==,
}
use dswp_plus.Split.Code.Target.Nearest.{IsTree}

-- The members `idom` and `postidom`; an absent entry or a null one is `none`.
pub record Dominators : Type 0 where
  pub idom : ℕ → Option ℕ
  pub postidom : ℕ → Option ℕ

from_update :
    (tree : ℕ → Option (Option ℕ)) (old new : ℕ → Option ℕ) (b : ℕ) (v : Option ℕ)
    → tree b ≡ some v
    → (x : ℕ) → (tree x ≡ some (new x)) ⊎ (new x ≡ update old b v x)
    → (tree x ≡ some (new x)) ⊎ (new x ≡ old x)
from_update tree old new b v e x (inl t) = inl t
from_update tree old new b v e x (inr t) = elim (Bool-cases (b == x)) [
  | inl s ↦
      let here : new x ≡ v = t ∙ rw s refl in
      inl (ap tree (sym (eq-of-== b x s)) ∙ e ∙ ap some (sym here))
  | inr s ↦ inr (t ∙ rw s refl)
]

of_update :
    (tree : ℕ → Option (Option ℕ)) (old new : ℕ → Option ℕ) (b : ℕ) (v : Option ℕ)
    → tree b ≡ some v
    → (x : ℕ) → x ≡ b
    → (tree x ≡ some (new x)) ⊎ (new x ≡ update old b v x)
    → tree x ≡ some (new x)
of_update tree old new b v e x same (inl t) = t
of_update tree old new b v e x same (inr t) =
    let s : (b == x) ≡ true = ground (arith, same) in
    let here : new x ≡ v = t ∙ rw s refl in ap tree same ∙ e ∙ ap some (sym here)

-- LLVM's trees: for a block, whether it has a node, and the block of `getIDom` of that, if not null.
module _ (dom_tree postdom_tree : ℕ → Option (Option ℕ)) where
  -- The loop over the blocks of the function. Without a node, `none`: the code follows a null pointer.
  unfoldable pub get_dominators : List ℕ → Dominators → Option Dominators
  get_dominators [] d = some d
  get_dominators (b ∷ bs) d = dom_tree b >>= λ i. postdom_tree b >>= λ p.
      get_dominators bs (record { idom = update d.idom b i; postidom = update d.postidom b p })

  -- Every block has its nodes.
  abbrev pub HaveNodes : List ℕ → Type 0
  HaveNodes [] = Unit
  HaveNodes (b ∷ bs) =
      ((i : Option ℕ) × (dom_tree b ≡ some i))
      × ((p : Option ℕ) × (postdom_tree b ≡ some p))
      × HaveNodes bs

  -- An entry is that of the tree, or was there before.
  pub record IsFrom (d d' : Dominators) : Type 0 where
    pub dom : (b : ℕ) → (dom_tree b ≡ some (d'.idom b)) ⊎ (d'.idom b ≡ d.idom b)
    pub post : (b : ℕ) → (postdom_tree b ≡ some (d'.postidom b)) ⊎ (d'.postidom b ≡ d.postidom b)

  get_dominators_lem :
      (bs : List ℕ) (d : Dominators)
      → HaveNodes bs
      → (d' : Dominators) × (get_dominators bs d ≡ some d')
        × IsFrom d d'
        × ((b : ℕ)
            → 0 < count b bs
            → (dom_tree b ≡ some (d'.idom b)) × (postdom_tree b ≡ some (d'.postidom b)))
  unfolding get_dominators
  get_dominators_lem [] d h = (
    d,
    refl,
    record { dom = λ b. inr refl; post = λ b. inr refl },
    λ b c. absurd (omega (arith, c)),
  )
  get_dominators_lem (b ∷ bs) d ((i, ei), (p, ep), h) =
      let next : Dominators = record {
        idom = update d.idom b i;
        postidom = update d.postidom b p;
      } in
      let (d', eq, from, all) = get_dominators_lem bs next h in
      (
        d',
        rw (get_dominators, ei, ep) eq,
        record {
          dom = λ x. from_update dom_tree d.idom d'.idom b i ei x (from.dom x);
          post = λ x. from_update postdom_tree d.postidom d'.postidom b p ep x (from.post x);
        },
        λ x c. elim (Bool-cases (x == b)) [
          | inl s ↦
              let same = eq-of-== x b s in
              (
                of_update dom_tree d.idom d'.idom b i ei x same (from.dom x),
                of_update postdom_tree d.postidom d'.postidom b p ep x same (from.post x),
              )
          | inr s ↦ all x (ground (arith, c, s))
        ],
      )

  -- Let LLVM's trees have a node for each block of the function and be of heights below `depth`, and let
  -- the tables be empty before. Then `getDominators` returns and gives every block of the function its
  -- immediate dominator and postdominator, and both tables form trees of heights below `depth`.
  pub get_dominators-IsTree :
      (bs : List ℕ) (depth : ℕ) (up down : ℕ → ℕ)
      → HaveNodes bs
      → ((b : ℕ) → (up b < depth) × (down b < depth))
      → ((b p : ℕ) → dom_tree b ≡ some (some p) → up p < up b)
      → ((b p : ℕ) → postdom_tree b ≡ some (some p) → down p < down b)
      → (d : Dominators) × (get_dominators bs (record { idom = λ _. none; postidom = λ _. none })
          ≡ some d)
        × ((b : ℕ)
            → 0 < count b bs
            → (dom_tree b ≡ some (d.idom b)) × (postdom_tree b ≡ some (d.postidom b)))
        × IsTree d.idom depth
        × IsTree d.postidom depth
  get_dominators-IsTree bs depth up down h low rise sink =
      let (d, eq, from, all) =
        get_dominators_lem bs (record { idom = λ _. none; postidom = λ _. none }) h in
      (
        d,
        eq,
        all,
        record {
          height = up;
          low = λ b. (low b).0;
          rises = λ b p e. elim (from.dom b) [
            | inl t ↦ rise b p (t ∙ ap some e)
            | inr t ↦ absurd (cc (t, e))
          ];
        },
        record {
          height = down;
          low = λ b. (low b).1;
          rises = λ b p e. elim (from.post b) [
            | inl t ↦ sink b p (t ∙ ap some e)
            | inr t ↦ absurd (cc (t, e))
          ];
        },
      )
