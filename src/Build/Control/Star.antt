-- ===== src/Build/Control/Star.antt =====
-- The postdominator tree of a peeled loop (DSWP_1.cpp) each of whose blocks may branch to the exit.
use dswp_plus.Base.{
  false, ℕ, ◌≡◌, ◌≢◌, refl, sym, subst, ◌∙◌, ◌<◌, List, count, arith, Bool-cases, inl, inr, ◌⊎◌,
  ◌==◌, if◌then◌else◌, eq-of-==, ne-of-==, ==_self,
}
use dswp_plus.Build.Control.{Peeled}
use dswp_plus.Build.Control.PostDominators.{Avoids, Above, IsTree}

-- All stand below the exit, and each of `nodes` but the exit may branch to it.
pub record IsStar (p : Peeled) (nodes : List ℕ) : Type 0 where
  pub below : (s : ℕ) → p.idom s ≡ p.exit_block
  pub meet : (b s : ℕ) → p.nearest b s ≡ (if b == s then b else p.exit_block)
  pub root : 0 < count p.exit_block nodes
  pub leaves :
      (s : ℕ) → 0 < count s nodes → s ≢ p.exit_block → 0 < count p.exit_block (p.successors s)

module _ (p : Peeled) (nodes : List ℕ) (star : IsStar p nodes) where
  is_same : (n s : ℕ) → (n ≡ s) ⊎ (n ≢ s)
  is_same n s = elim (Bool-cases (n == s)) [
    | inl e ↦ inl (eq-of-== n s e)
    | inr e ↦ inr (ne-of-== n s e)
  ]

  Above-cases : {n s : ℕ} → Above p n s → (s ≡ n) ⊎ (n ≡ p.exit_block)
  Above-cases (Above.same e) = inl e
  Above-cases {n} {s} (Above.up ne a) = elim (Above-cases a) [
    | inl e ↦ inr (sym e ∙ star.below s)
    | inr e ↦ inr e
  ]

  exit_above : (s : ℕ) → Above p p.exit_block s
  exit_above s = elim (is_same s p.exit_block) [
    | inl e ↦ Above.same e
    | inr e ↦ Above.up e (Above.same (star.below s))
  ]

  Avoids-not : {n s : ℕ} → Avoids p n s → (s ≢ n) × (n ≢ p.exit_block)
  Avoids-not (Avoids.stop e ne) = (ne, λ h. ne (e ∙ sym h))
  Avoids-not (Avoids.go ne c a) = (ne, (Avoids-not a).1)

  exit_path : (n s : ℕ) → 0 < count s nodes → s ≢ n → n ≢ p.exit_block → Avoids p n s
  exit_path n s c ne nx = elim (is_same s p.exit_block) [
    | inl e ↦ Avoids.stop e ne
    | inr e ↦ Avoids.go ne (star.leaves s c e) (Avoids.stop refl (λ h. nx (sym h)))
  ]

  to_exit : (n : ℕ) {s : ℕ} → s ≡ p.exit_block → Above p s n
  to_exit n e = subst (λ z. Above p z n) (sym e) (exit_above n)

  pub IsStar-IsTree : IsTree p nodes 1
  IsStar-IsTree = record {
    height = λ s. if s == p.exit_block then 0 else 1;
    low = λ s. ground arith;
    rises = λ s ne. rw (star.below s) (ground (arith, ==_self p.exit_block));
    inside = λ s c ne. rw (star.below s) star.root;
    above_is = λ n s c. (
      λ a q. elim (Above-cases a) [ inl e ↦ (Avoids-not q).0 e | inr e ↦ (Avoids-not q).1 e ],
      λ post. elim (is_same s n) [
        | inl e ↦ Above.same e
        | inr ne ↦ elim (is_same n p.exit_block) [
          | inl e ↦ to_exit s e
          | inr nx ↦ absurd (post (exit_path n s c ne nx))
        ]
      ],
    );
    first = λ b s cb cs. meet_above b s;
    second = λ b s cb cs. elim (Bool-cases (b == s)) [
      | inl e ↦ subst (Above p (p.nearest b s)) (eq-of-== b s e) (meet_above b s)
      | inr e ↦ to_exit s (rw e at (star.meet b s))
    ];
    lowest = λ b s n cb cs x y. elim (Bool-cases (b == s)) [
      | inl e ↦
          let at_b : p.nearest b s ≡ b = rw e at (star.meet b s) in subst (Above p n) (sym at_b) x
      | inr e ↦
          let at_exit : p.nearest b s ≡ p.exit_block = rw e at (star.meet b s) in
          subst (Above p n) (sym at_exit)
            (Above.same (sym (both_exit e (Above-cases x) (Above-cases y))))
    ];
  }
    where
      meet_above : (b s : ℕ) → Above p (p.nearest b s) b
      meet_above b s = elim (Bool-cases (b == s)) [
        | inl e ↦ Above.same (sym (rw e at (star.meet b s)))
        | inr e ↦ to_exit b (rw e at (star.meet b s))
      ]

      both_exit :
          {b s n : ℕ}
          → (b == s) ≡ false
          → (b ≡ n) ⊎ (n ≡ p.exit_block)
          → (s ≡ n) ⊎ (n ≡ p.exit_block)
          → n ≡ p.exit_block
      both_exit {b} {s} {n} e x y = ground (arith, e, x, y)
