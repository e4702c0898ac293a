-- ===== src/Build/Blocks/Dummies/Created.antt =====
-- The look-up tables and the branches of the dummy blocks, as the loops of DSWP_1.cpp leave them.
use mathlib.Core.List.{map}
use dswp_plus.Base.{
  ℕ, ◌≡◌, ◌≢◌, ◌↔◌, refl, sym, ap, subst, ◌∙◌, ◌+◌, ◌<◌, ◌≤◌, false, some, List, [], ◌∷◌, ◌++◌,
  ◌==◌, update, ltb, count, count-snoc, arith, Bool-cases, inl, inr, ◌⊎◌, eq-of-==, ne-of-==,
  ==_self,
}
use dswp_plus.Build.Blocks.Peel.{Dummy, top_half, bottom_half, branches, instnum}
use dswp_plus.Build.Blocks.Dummies.{
  Tables, LoopBlocks, halves, found, create_dummy, create_dummies, add_branches,
}

-- LLVM gives different dummy blocks different addresses.
pub record AreFresh (c : LoopBlocks) : Type 0 where
  pub top_inj : (a b : ℕ) → c.top a ≡ c.top b → a ≡ b
  pub bottom_inj : (a b : ℕ) → c.bottom a ≡ c.bottom b → a ≡ b
  pub apart : (a b : ℕ) → c.top a ≢ c.bottom b
  pub top_inner : (a : ℕ) → c.top a ≢ c.exit_address
  pub bottom_inner : (a : ℕ) → c.bottom a ≢ c.exit_address

-- `n` is a dummy block of `b`.
abbrev pub IsHalf : LoopBlocks → ℕ → ℕ → Type 0
IsHalf c n b = (n ≡ c.top b) ⊎ (n ≡ c.bottom b)

module _ (c : LoopBlocks) (fresh : AreFresh c) where
  top_ne : (a b : ℕ) → (a == b) ≡ false → (c.top a == c.top b) ≡ false
  top_ne a b h = elim (Bool-cases (c.top a == c.top b)) [
    | inl e ↦ absurd (ne-of-== a b h (fresh.top_inj a b (eq-of-== _ _ e)))
    | inr e ↦ e
  ]

  bottom_ne : (a b : ℕ) → (a == b) ≡ false → (c.bottom a == c.bottom b) ≡ false
  bottom_ne a b h = elim (Bool-cases (c.bottom a == c.bottom b)) [
    | inl e ↦ absurd (ne-of-== a b h (fresh.bottom_inj a b (eq-of-== _ _ e)))
    | inr e ↦ e
  ]

  top_bottom : (a b : ℕ) → (c.top a == c.bottom b) ≡ false
  top_bottom a b = elim (Bool-cases (c.top a == c.bottom b)) [
    | inl e ↦ absurd (fresh.apart a b (eq-of-== _ _ e))
    | inr e ↦ e
  ]

  bottom_top : (a b : ℕ) → (c.bottom a == c.top b) ≡ false
  bottom_top a b = ground (arith, top_bottom b a)

  -- A table over the dummy blocks after the entries of one block.
  update_halves {ℓ} :
      {A : Type ℓ} (m : ℕ → A) (b : ℕ) (x y : A)
      → let m' = update (update m (c.top b) x) (c.bottom b) y in
        (m' (c.top b) ≡ x)
        × (m' (c.bottom b) ≡ y)
        × ((a : ℕ)
            → (b == a) ≡ false
            → (m' (c.top a) ≡ m (c.top a)) × (m' (c.bottom a) ≡ m (c.bottom a)))
  update_halves m b x y = (
    rw (bottom_top b b, ==_self (c.top b)) refl,
    rw (==_self (c.bottom b)) refl,
    λ a h. (rw (bottom_top b a, top_ne b a h) refl, rw (bottom_ne b a h, top_bottom b a) refl),
  )

  -- What the creation does for the blocks of the list, each of which stands in it once.
  pub record Made (bs : List ℕ) (t u : Tables) : Type 0 where
    pub real :
        (b : ℕ)
        → 0 < count b bs
        → (u.dummy_to_real (c.top b) ≡ some b) × (u.dummy_to_real (c.bottom b) ≡ some b)
    pub kept :
        (b : ℕ)
        → count b bs ≡ 0
        → (u.dummy_to_real (c.top b) ≡ t.dummy_to_real (c.top b))
          × (u.dummy_to_real (c.bottom b) ≡ t.dummy_to_real (c.bottom b))
    pub pairs : (b : ℕ) → 0 < count b bs → u.real_to_dummy b ≡ some (c.top b, c.bottom b)
    pub pairs_kept : (b : ℕ) → count b bs ≡ 0 → u.real_to_dummy b ≡ t.real_to_dummy b
    pub num : (b : ℕ) → 0 < count b bs → u.inst_num b ≡ t.number + instnum bs b
    pub num_kept : (b : ℕ) → count b bs ≡ 0 → u.inst_num b ≡ t.inst_num b
    pub listed :
        (n : ℕ)
        → (0 < count n u.dummy_list)
          ↔ ((0 < count n t.dummy_list) ⊎ ((b : ℕ) × (0 < count b bs) × IsHalf c n b))

  listed_one :
      (b n : ℕ) (t : Tables)
      → (0 < count n (create_dummy c b t).dummy_list) ↔ ((0 < count n t.dummy_list) ⊎ IsHalf c n b)
  unfolding create_dummy
  listed_one b n t =
      let e = count-snoc n (c.bottom b) (t.dummy_list ++ (c.top b ∷ [])) in
      let e' = count-snoc n (c.top b) t.dummy_list in
      (λ h. ground (arith, h, e, e'), λ h. ground (arith, h, e, e'))

  pub create_dummies_lem :
      (bs : List ℕ) (t : Tables) → ((b : ℕ) → count b bs ≤ 1) → Made bs t (create_dummies c bs t)
  unfolding create_dummies create_dummy instnum
  create_dummies_lem [] t once = record {
    real = λ b h. absurd (omega (arith, h));
    kept = λ b h. (refl, refl);
    pairs = λ b h. absurd (omega (arith, h));
    pairs_kept = λ b h. refl;
    num = λ b h. absurd (omega (arith, h));
    num_kept = λ b h. refl;
    listed =
        λ n. (λ h. inl h, λ h. elim h [ inl k ↦ k | inr (b, z, k) ↦ absurd (omega (arith, z)) ]);
  }
  create_dummies_lem (x ∷ bs) t once =
      let p = create_dummies_lem bs (create_dummy c x t) (λ b. omega (arith, once b)) in
      let (here, here', other) = update_halves t.dummy_to_real x (some x) (some x) in
      record {
        real = λ b h. elim (Bool-cases (b == x)) [
          | inl e ↦
              let (k, k') = p.kept x (ground (arith, once x)) in
              subst
                (λ z.
                  ((create_dummies c bs (create_dummy c x t)).dummy_to_real (c.top z) ≡ some z)
                  × ((create_dummies c bs (create_dummy c x t)).dummy_to_real (c.bottom z)
                      ≡ some z))
                (sym (eq-of-== b x e)) (k ∙ here, k' ∙ here')
          | inr e ↦ p.real b (ground (arith, h, e))
        ];
        kept = λ b h.
            let e : (x == b) ≡ false = ground (arith, h) in
            let (k, k') = p.kept b (ground (arith, h)) in
            let (o, o') = other b e in (k ∙ o, k' ∙ o');
        pairs = λ b h. elim (Bool-cases (b == x)) [
          | inl e ↦
              subst
                (λ z.
                  (create_dummies c bs (create_dummy c x t)).real_to_dummy z
                  ≡ some (c.top z, c.bottom z))
                (sym (eq-of-== b x e))
                (p.pairs_kept x (ground (arith, once x)) ∙ rw (==_self x) refl)
          | inr e ↦ p.pairs b (ground (arith, h, e))
        ];
        pairs_kept = λ b h.
            let e : (x == b) ≡ false = ground (arith, h) in
            p.pairs_kept b (ground (arith, h)) ∙ rw e refl;
        num = λ b h. elim (Bool-cases (b == x)) [
          | inl e ↦
              let e' = eq-of-== b x e in
              let z : count b bs ≡ 0 = ground (arith, e', once x) in
              ground (arith, e', z, p.num_kept b)
          | inr e ↦ ground (arith, h, e, p.num b)
        ];
        num_kept = λ b h. ground (arith, h, p.num_kept b);
        listed = λ n. (
          λ h. elim ((p.listed n).0 h) [
            | inr (b, z, k) ↦ inr (b, omega (arith, z), k)
            | inl old ↦ elim ((listed_one x n t).0 old) [
              | inl older ↦ inl older
              | inr k ↦ inr (x, ground arith, k)
            ]
          ],
          λ h. elim h [
            | inl old ↦ (p.listed n).1 (inl ((listed_one x n t).1 (inl old)))
            | inr (b, z, k) ↦ elim (Bool-cases (b == x)) [
              | inl e ↦
                  (p.listed n).1
                    (inl ((listed_one x n t).1 (inr (subst (IsHalf c n) (eq-of-== b x e) k))))
              | inr e ↦ (p.listed n).1 (inr (b, ground (arith, z, e), k))
            ]
          ],
        );
      }

  -- `r` has the branches of the listed blocks, and what `m` has of the others.
  abbrev pub AreBranched : Tables → List ℕ → List ℕ → (ℕ → List ℕ) → (ℕ → List ℕ) → Type 0
  AreBranched t rs bs m r =
      let targets = λ (d : Dummy).
        map (found c t) (branches t.inst_num c.contains (λ x. ltb 0 (count x rs)) c.successors d) in
      ((b : ℕ)
        → 0 < count b bs
        → (r (c.top b) ≡ targets (top_half b)) × (r (c.bottom b) ≡ targets (bottom_half b)))
      × ((b : ℕ) → count b bs ≡ 0 → (r (c.top b) ≡ m (c.top b)) × (r (c.bottom b) ≡ m (c.bottom b)))

  pub add_branches_lem :
      (t : Tables) (rs bs : List ℕ) (m : ℕ → List ℕ)
      → ((b : ℕ) → 0 < count b bs → halves t b ≡ (c.top b, c.bottom b))
      → AreBranched t rs bs m (add_branches c t rs bs m)
  unfolding add_branches
  add_branches_lem t rs [] m hs = (λ b h. absurd (omega (arith, h)), λ b h. (refl, refl))
  add_branches_lem t rs (x ∷ bs) m hs =
      let targets : Dummy → List ℕ = λ d.
        map (found c t) (branches t.inst_num c.contains (λ y. ltb 0 (count y rs)) c.successors d) in
      let m' =
        update (update m (c.top x) (targets (top_half x))) (c.bottom x) (targets (bottom_half x)) in
      let (new, kept) = add_branches_lem t rs bs m' (λ b h. hs b (ground (arith, h))) in
      let (here, here', other) =
        update_halves m x (targets (top_half x)) (targets (bottom_half x)) in
      let step : add_branches c t rs (x ∷ bs) m ≡ add_branches c t rs bs m' =
        ap
          (λ (q : ℕ × ℕ).
            add_branches c t rs bs
              (update (update m q.0 (targets (top_half x))) q.1 (targets (bottom_half x))))
          (hs x (ground arith)) in
      subst (AreBranched t rs (x ∷ bs) m) (sym step) (
        λ b h. elim (Bool-cases (ltb 0 (count b bs))) [
          | inl e ↦ new b (ground (arith, e))
          | inr e ↦
              let same : x ≡ b = ground (arith, e, h) in
              let (k, k') = kept x (ground (arith, e, same, ap (λ z. count z bs) same)) in
              subst
                (λ z.
                  (add_branches c t rs bs m' (c.top z) ≡ targets (top_half z))
                  × (add_branches c t rs bs m' (c.bottom z) ≡ targets (bottom_half z)))
                same (k ∙ here, k' ∙ here')
        ],
        λ b h.
            let (k, k') = kept b (ground (arith, h)) in
            let (o, o') = other b (ground (arith, h)) in (k ∙ o, k' ∙ o'),
      )
