-- ===== src/Split/Code/Copy/Placed.antt =====
-- Where `instMap` and `placeEquivalents` lead after `loopSplit` (DSWP_4.cpp) has copied the blocks.
use dswp_plus.Base.{
  ℕ, ◌≡◌, refl, sym, ap, subst, ◌∙◌, ◌<◌, Bool, true, false, Option, some, List, [], ◌∷◌, ◌++◌,
  ◌==◌, ℤ, Bool-cases, inl, inr, eq-of-==, ==_self, count, count-snoc, arith, ◌⊎◌, ltb,
}
use dswp_plus.Base.Result.{ok}
use dswp_plus.Split.Code.Target.{Cfg, NewInst, new_inst}
use dswp_plus.Split.Code.Copy.Next.{
  IsFirst, first, skip, IsNext, behind, later, Ends, Ends-kept, Ends-skip, point_all_lem,
}
use dswp_plus.Split.Code.Copy.{Copies, keeps, add_copy, copy_insts}

module _ (c : Cfg) (fuel : ℕ) (bb_map : ℕ → Option ℕ) (thread : ℕ → ℤ) (i : ℕ) (copy : ℕ → ℕ)
    (N : ℕ → ℕ → Type 0) where
  abbrev pub kept : ℕ → Bool
  kept = keeps c fuel bb_map thread i copy

  -- The place of `x` is the copy of an instruction that the thread gets and that `N` allows.
  abbrev pub IsPlaced : Copies → ℕ → Type 0
  IsPlaced s x = (y : ℕ) × (kept y ≡ true) × N x y × (s.places x ≡ some (copy y))

  -- `newToOld` has an entry for `n`.
  abbrev pub IsNamed : Copies → ℕ → Type 0
  IsNamed s n = (y : ℕ) × (s.new_to_old n ≡ some y)

  -- What the copying of the instructions `xs` does to the tables.
  pub record Copied (xs : List ℕ) (s t : Copies) : Type 0 where
    pub pointed : t.to_point ≡ []
    pub mapped : (x : ℕ) → 0 < count x xs → kept x ≡ true → t.inst_map x ≡ some (copy x)
    pub stays : (x : ℕ) → s.inst_map x ≡ some (copy x) → t.inst_map x ≡ some (copy x)
    pub only :
        (x n : ℕ)
        → t.inst_map x ≡ some n
        → (s.inst_map x ≡ some n) ⊎ ((0 < count x xs) × (kept x ≡ true) × (n ≡ copy x))
    pub placed : (x : ℕ) → 0 < count x xs → kept x ≡ false → IsPlaced t x
    pub points :
        (x n : ℕ)
        → t.places x ≡ some n
        → (s.places x ≡ some n) ⊎ ((y : ℕ) × (kept y ≡ true) × N x y × (n ≡ copy y))
    pub waiting : (x : ℕ) → 0 < count x s.to_point → IsPlaced t x
    pub still : (x : ℕ) → IsPlaced s x → IsPlaced t x
    pub named : (x : ℕ) → 0 < count x xs → kept x ≡ true → IsNamed t (copy x)
    pub renamed : (n : ℕ) → IsNamed s n → IsNamed t n
    pub back :
        (n y : ℕ)
        → t.new_to_old n ≡ some y
        → (s.new_to_old n ≡ some y) ⊎ ((kept y ≡ true) × (n ≡ copy y))

  module _ (x : ℕ) (xs : List ℕ) (s t : Copies) where
    Copied-kept :
        (block : ℕ) (new : NewInst)
        → kept x ≡ true
        → ((q : ℕ) → 0 < count q s.to_point → N q x)
        → Copied xs (add_copy c fuel bb_map thread i copy block x new s) t
        → Copied (x ∷ xs) s t
    unfolding add_copy
    Copied-kept block new k wait p =
        let pended : (q : ℕ) → 0 < count q s.to_point → IsPlaced t q = λ q m.
          p.still q
            (x, k, wait q m, ground (arith, point_all_lem (copy x) s.to_point s.places q)) in
        let own : IsNamed t (copy x) = p.renamed (copy x) (x, rw (==_self (copy x)) refl) in
        record {
          pointed = p.pointed;
          mapped = λ y m h. elim (Bool-cases (x == y)) [
            | inl e ↦ let e' = eq-of-== x y e in p.stays y (ground (arith, e'))
            | inr e ↦ p.mapped y (ground arith) h
          ];
          stays = λ y h. elim (Bool-cases (x == y)) [
            | inl e ↦ let e' = eq-of-== x y e in p.stays y (ground (arith, e'))
            | inr e ↦ p.stays y (ground arith)
          ];
          only = λ y n h. elim (p.only y n h) [
            | inr (m, h', e) ↦ inr (omega arith, h', e)
            | inl old ↦ elim (Bool-cases (x == y)) [
              | inl e ↦
                  let e' = eq-of-== x y e in
                  inr (ground (arith, e'), subst (λ z. kept z ≡ true) e' k, ground (arith, e', old))
              | inr e ↦ inl (ground (arith, old))
            ]
          ];
          placed = λ y m h. elim (Bool-cases (y == x)) [
            | inl e ↦ absurd (cc (k, h, eq-of-== y x e))
            | inr e ↦ p.placed y (ground arith) h
          ];
          points = λ y n h. elim (p.points y n h) [
            | inr q ↦ inr q
            | inl old ↦ elim (Bool-cases (ltb 0 (count y s.to_point))) [
              | inl e ↦ inr (
                x,
                k,
                wait y (ground arith),
                ground (arith, point_all_lem (copy x) s.to_point s.places y, old, e),
              )
              | inr e ↦ inl (ground (arith, point_all_lem (copy x) s.to_point s.places y, old, e))
            ]
          ];
          waiting = pended;
          still = λ y (z, kz, nz, e). elim (Bool-cases (ltb 0 (count y s.to_point))) [
            | inl h ↦ pended y (ground arith)
            | inr h ↦
                p.still y
                  (z, kz, nz, ground (arith, point_all_lem (copy x) s.to_point s.places y, e, h))
          ];
          named = λ y m h. elim (Bool-cases (x == y)) [
            | inl e ↦ subst (λ z. IsNamed t (copy z)) (eq-of-== x y e) own
            | inr e ↦ p.named y (ground arith) h
          ];
          renamed = λ n (y, h). elim (Bool-cases (copy x == n)) [
            | inl e ↦ subst (λ z. IsNamed t z) (eq-of-== (copy x) n e) own
            | inr e ↦ p.renamed n (y, rw e h)
          ];
          back = λ n y h. elim (p.back n y h) [
            | inr q ↦ inr q
            | inl old ↦ elim (Bool-cases (copy x == n)) [
              | inl e ↦
                  let same : some x ≡ some y = rw e at old in
                  let same' : x ≡ y = cc in
                  inr (
                    subst (λ z. kept z ≡ true) same' k,
                    sym (eq-of-== (copy x) n e) ∙ ap copy same',
                  )
              | inr e ↦ inl (rw e at old)
            ]
          ];
        }

    Copied-skip :
        kept x ≡ false
        → Copied xs (record s { to_point = s.to_point ++ (x ∷ []) }) t
        → Copied (x ∷ xs) s t
    Copied-skip k p = record {
      pointed = p.pointed;
      mapped = λ y m h. elim (Bool-cases (y == x)) [
        | inl e ↦ absurd (cc (k, h, eq-of-== y x e))
        | inr e ↦ p.mapped y (ground arith) h
      ];
      stays = p.stays;
      only = λ y n h. elim (p.only y n h) [
        | inr (m, h', e) ↦ inr (omega arith, h', e)
        | inl old ↦ inl old
      ];
      placed = λ y m h. elim (Bool-cases (y == x)) [
        | inl e ↦ p.waiting y (ground (arith, count-snoc y x s.to_point))
        | inr e ↦ p.placed y (ground arith) h
      ];
      points = p.points;
      waiting = λ q m. p.waiting q (omega (arith, count-snoc q x s.to_point));
      still = p.still;
      named = λ y m h. elim (Bool-cases (y == x)) [
        | inl e ↦ absurd (cc (k, h, eq-of-== y x e))
        | inr e ↦ p.named y (ground arith) h
      ];
      renamed = p.renamed;
      back = p.back;
    }

  pub copy_insts_lem :
      (block : ℕ) (xs : List ℕ) (s : Copies)
      → Ends kept s.to_point xs
      → ((x : ℕ)
          → 0 < count x xs
          → kept x ≡ true
          → (new : NewInst) × (new_inst c fuel bb_map x ≡ ok new))
      → ((x y : ℕ) → IsNext kept x y xs → N x y)
      → ((x y : ℕ) → 0 < count x s.to_point → IsFirst kept y xs → N x y)
      → (t : Copies) × (copy_insts c fuel bb_map thread i copy block xs s ≡ ok t) × Copied xs s t
  unfolding copy_insts add_copy
  copy_insts_lem block [] s e new next wait = (
    s,
    refl,
    record {
      pointed = e;
      mapped = λ y m h. absurd (omega arith);
      stays = λ y h. h;
      only = λ y n h. inl h;
      placed = λ y m h. absurd (omega arith);
      points = λ y n h. inl h;
      waiting = λ q m. absurd (ground (arith, m, ap (count q) e));
      still = λ y h. h;
      named = λ y m h. absurd (omega arith);
      renamed = λ n h. h;
      back = λ n y h. inl h;
    },
  )
  copy_insts_lem block (x ∷ xs) s e new next wait = elim (Bool-cases (kept x)) [
    | inl k ↦
        let (n, eq) = new x (ground arith) k in
        let s' = add_copy c fuel bb_map thread i copy block x n s in
        let (t, eq', p) =
          copy_insts_lem block xs s' (Ends-kept kept s.to_point x xs e)
            (λ y m h. new y (omega arith) h) (λ y z m. next y z (later m))
            (λ y z m f. absurd (omega arith)) in
        (t, rw (k, eq) eq', Copied-kept x xs s t block n k (λ q m. wait q x m (first k)) p)
    | inr k ↦
        let s' = record s { to_point = s.to_point ++ (x ∷ []) } in
        let (t, eq', p) =
          copy_insts_lem block xs s' (Ends-skip kept s.to_point (s.to_point ++ (x ∷ [])) x xs k e)
            (λ y m h. new y (omega arith) h) (λ y z m. next y z (later m))
            (λ y z m f. elim (Bool-cases (y == x)) [
              | inl h ↦ subst (λ w. N w z) (sym (eq-of-== y x h)) (next x z (behind f))
              | inr h ↦ wait y z (ground (arith, m, count-snoc y x s.to_point)) (skip k f)
            ]) in
        (t, rw k eq', Copied-skip x xs s t k p)
  ]
