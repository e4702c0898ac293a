-- ===== src/Split/Code/Copy/Thread.antt =====
-- The tables that `loopSplit` (DSWP_4.cpp) leaves when it has copied all the blocks of a thread.
use dswp_plus.Base.{
  ℕ, ◌≡◌, refl, sym, ap, subst, ◌+◌, ◌<◌, true, false, Option, none, some, List, [], ◌∷◌, ◌++◌,
  ◌==◌, ℤ, Bool-cases, inl, inr, eq-of-==, count, arith, ltb, ◌↔◌,
}
use dswp_plus.Base.Result.{ok}
use dswp_plus.Split.Code.Target.{Cfg, NewInst, new_inst}
use dswp_plus.Split.Code.Copy.Next.{IsNext, Ends, Ends-mono}
use dswp_plus.Split.Code.Copy.{Copies, keeps, check_pointed, copy_blocks}
use dswp_plus.Split.Code.Copy.Placed.{kept, Copied, copy_insts_lem}

count_of-append : (n : ℕ) (k l : List ℕ) → count n (k ++ l) ≡ count n k + count n l
count_of-append n [] l = omega arith
count_of-append n (m ∷ k) l = omega (arith, count_of-append n k l)

-- No instruction has a copy yet, and none waits.
abbrev pub no_copies : Copies
no_copies = record {
  inst_map = λ _. none;
  places = λ _. none;
  new_to_old = λ _. none;
  new_assigned = λ _. none;
  body = λ _. [];
  to_point = [];
}

module _ (c : Cfg) (fuel : ℕ) (bb_map : ℕ → Option ℕ) (thread : ℕ → ℤ) (i : ℕ) (copy : ℕ → ℕ) where
  -- The instructions of the blocks.
  abbrev all_insts : List ℕ → List ℕ
  all_insts [] = []
  all_insts (b ∷ bs) = c.insts_of b ++ all_insts bs

  check_pointed_lem :
      (left : List ℕ) (s : Copies)
      → left ≡ []
      → check_pointed c fuel bb_map thread i copy left s ≡ ok s
  unfolding check_pointed
  check_pointed_lem left s e = ap (λ l. check_pointed c fuel bb_map thread i copy l s) e

  module _ (N : ℕ → ℕ → Type 0) where
    Copied-append :
        (xs ys : List ℕ) (s t u : Copies)
        → Copied c fuel bb_map thread i copy N xs s t
        → Copied c fuel bb_map thread i copy N ys t u
        → Copied c fuel bb_map thread i copy N (xs ++ ys) s u
    Copied-append xs ys s t u p q = record {
      pointed = q.pointed;
      mapped = λ x m h. elim (Bool-cases (ltb 0 (count x xs))) [
        | inl e ↦ q.stays x (p.mapped x (ground arith) h)
        | inr e ↦ q.mapped x (ground (arith, m, count_of-append x xs ys)) h
      ];
      stays = λ x h. q.stays x (p.stays x h);
      only = λ x n h. elim (q.only x n h) [
        | inr (m, k, e) ↦ inr (omega (arith, count_of-append x xs ys), k, e)
        | inl old ↦ elim (p.only x n old) [
          | inr (m, k, e) ↦ inr (omega (arith, count_of-append x xs ys), k, e)
          | inl older ↦ inl older
        ]
      ];
      placed = λ x m h. elim (Bool-cases (ltb 0 (count x xs))) [
        | inl e ↦ q.still x (p.placed x (ground arith) h)
        | inr e ↦ q.placed x (ground (arith, m, count_of-append x xs ys)) h
      ];
      points = λ x n h. elim (q.points x n h) [ inr k ↦ inr k | inl old ↦ p.points x n old ];
      waiting = λ x m. q.still x (p.waiting x m);
      still = λ x h. q.still x (p.still x h);
      named = λ x m h. elim (Bool-cases (ltb 0 (count x xs))) [
        | inl e ↦ q.renamed (copy x) (p.named x (ground arith) h)
        | inr e ↦ q.named x (ground (arith, m, count_of-append x xs ys)) h
      ];
      renamed = λ n h. q.renamed n (p.renamed n h);
      back = λ n y h. elim (q.back n y h) [ inr k ↦ inr k | inl old ↦ p.back n y old ];
    }

    copy_blocks_lem :
        (copied : ℕ → ℕ) (rel : List ℕ) (s : Copies)
        → s.to_point ≡ []
        → ((b : ℕ)
            → 0 < count b rel
            → Ends (kept c fuel bb_map thread i copy N) [] (c.insts_of b)
              × ((x : ℕ)
                  → 0 < count x (c.insts_of b)
                  → kept c fuel bb_map thread i copy N x ≡ true
                  → (new : NewInst) × (new_inst c fuel bb_map x ≡ ok new))
              × ((x y : ℕ)
                  → IsNext (kept c fuel bb_map thread i copy N) x y (c.insts_of b)
                  → N x y))
        → (t : Copies) × (copy_blocks c fuel bb_map thread i copy copied rel s ≡ ok t)
          × Copied c fuel bb_map thread i copy N (all_insts rel) s t
    unfolding copy_blocks
    copy_blocks_lem copied [] s e h = (
      s,
      refl,
      record {
        pointed = e;
        mapped = λ y m h. absurd (omega arith);
        stays = λ y h. h;
        only = λ y n h. inl h;
        placed = λ y m h. absurd (omega arith);
        points = λ y n h. inl h;
        waiting = λ q m. absurd (ground (arith, m, ap (count q) e));
        still = λ y h. h;
        named = λ y m h. absurd (omega arith);
        renamed = λ n h. h;
        back = λ n y h. inl h;
      },
    )
    copy_blocks_lem copied (b ∷ bs) s e h =
        let (ends, new, next) = h b (ground arith) in
        let (t, eq, p) =
          copy_insts_lem c fuel bb_map thread i copy N (copied b) (c.insts_of b) s
            (subst (λ l. Ends (kept c fuel bb_map thread i copy N) l (c.insts_of b)) (sym e) ends)
            new next (λ x y m f. absurd (ground (arith, m, ap (count x) e))) in
        let (u, eq', q) = copy_blocks_lem copied bs t p.pointed (λ d m. h d (omega arith)) in
        (
          u,
          rw (eq, check_pointed_lem t.to_point t p.pointed) eq',
          Copied-append (c.insts_of b) (all_insts bs) s t u p q,
        )

  -- What the blocks of the thread are to LLVM: their instructions are theirs, and a terminator ends
  -- each of them.
  pub record IsCode (parent : ℕ → ℕ) (rel : List ℕ) : Type 0 where
    pub owns : (b x : ℕ) → (0 < count x (c.insts_of b)) ↔ (parent x ≡ b)
    pub ends : (b : ℕ) → 0 < count b rel → Ends c.is_term [] (c.insts_of b)

  -- `y` is the first behind `x` in its block that the thread gets.
  abbrev pub Follows : ℕ → ℕ → Type 0
  Follows x y = (b : ℕ) × IsNext (keeps c fuel bb_map thread i copy) x y (c.insts_of b)

  all_insts_lem :
      (rel : List ℕ) (b x : ℕ)
      → 0 < count b rel
      → 0 < count x (c.insts_of b)
      → 0 < count x (all_insts rel)
  all_insts_lem [] b x m n = absurd (omega arith)
  all_insts_lem (d ∷ rel) b x m n = elim (Bool-cases (b == d)) [
    | inl e ↦
        let n' = subst (λ k. 0 < count x (c.insts_of k)) (eq-of-== b d e) n in
        omega (arith, count_of-append x (c.insts_of d) (all_insts rel))
    | inr e ↦ omega (
      arith,
      count_of-append x (c.insts_of d) (all_insts rel),
      all_insts_lem rel b x (ground arith) n,
    )
  ]

  -- Let a terminator end each block of the thread, and let the copying of no instruction that the
  -- thread gets end in `error`. Then that of all the blocks does not, and when it is done every
  -- instruction of the blocks that the thread gets has its copy in `instMap`, no other has one, and
  -- each of the others has in `placeEquivalents` the copy of the first instruction behind it in its
  -- block that the thread gets; there are no other entries. `newToOld` has an entry for each copy, and
  -- leads from a copy to an instruction of which it is the copy.
  pub copy_blocks-placed :
      (parent : ℕ → ℕ) (copied : ℕ → ℕ) (rel : List ℕ)
      → IsCode parent rel
      → ((x : ℕ)
          → 0 < count (parent x) rel
          → keeps c fuel bb_map thread i copy x ≡ true
          → (new : NewInst) × (new_inst c fuel bb_map x ≡ ok new))
      → (t : Copies) × (copy_blocks c fuel bb_map thread i copy copied rel no_copies ≡ ok t)
        × ((x : ℕ)
            → 0 < count (parent x) rel
            → keeps c fuel bb_map thread i copy x ≡ true
            → t.inst_map x ≡ some (copy x))
        × ((x n : ℕ)
            → t.inst_map x ≡ some n
            → (keeps c fuel bb_map thread i copy x ≡ true) × (n ≡ copy x))
        × ((x : ℕ)
            → 0 < count (parent x) rel
            → keeps c fuel bb_map thread i copy x ≡ false
            → (y : ℕ) × Follows x y × (t.places x ≡ some (copy y)))
        × ((x n : ℕ) → t.places x ≡ some n → (y : ℕ) × Follows x y × (n ≡ copy y))
        × ((x : ℕ)
            → 0 < count (parent x) rel
            → keeps c fuel bb_map thread i copy x ≡ true
            → (y : ℕ) × (t.new_to_old (copy x) ≡ some y))
        × ((n y : ℕ)
            → t.new_to_old n ≡ some y
            → (keeps c fuel bb_map thread i copy y ≡ true) × (n ≡ copy y))
  copy_blocks-placed parent copied rel code new =
      let inside : (b x : ℕ)
          → 0 < count b rel
          → 0 < count x (c.insts_of b)
          → 0 < count (parent x) rel =
        λ b x m n. subst (λ k. 0 < count k rel) (sym ((code.owns b x).0 n)) m in
      let (t, eq, p) = copy_blocks_lem Follows copied rel no_copies refl (λ b m. (
        Ends-mono c.is_term (kept c fuel bb_map thread i copy Follows) [] (c.insts_of b)
            (λ x t. ground (arith, t)) (code.ends b m),
        λ x n k. new x (inside b x m n) k,
        λ x y f. (b, f),
      )) in
      let listed : (x : ℕ) → 0 < count (parent x) rel → 0 < count x (all_insts rel) =
        λ x m. all_insts_lem rel (parent x) x m ((code.owns (parent x) x).1 refl) in
      (
        t,
        eq,
        λ x m k. p.mapped x (listed x m) k,
        λ x n e. elim (p.only x n e) [ inl none_yet ↦ absurd (cc) | inr (_, k, e') ↦ (k, e') ],
        λ x m k. let (y, _, f, e) = p.placed x (listed x m) k in (y, f, e),
        λ x n e. elim (p.points x n e) [
          | inl none_yet ↦ absurd (cc)
          | inr (y, _, f, e') ↦ (y, f, e')
        ],
        λ x m k. p.named x (listed x m) k,
        λ n y e. elim (p.back n y e) [ inl none_yet ↦ absurd (cc) | inr q ↦ q ],
      )
