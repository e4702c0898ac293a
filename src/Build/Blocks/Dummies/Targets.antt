-- ===== src/Build/Blocks/Dummies/Targets.antt =====
-- What the branches of the dummy blocks of DSWP_1.cpp lead to, and which blocks may leave the loop.
use mathlib.Core.List.{Memᴰ, map}
use mathlib.Core.List.Memᴰ
use dswp_plus.Base.{
  ℕ, ◌≡◌, refl, sym, ap, subst, ◌∙◌, ◌<◌, Bool, true, false, ◌||◌, ◌&&◌, List, [], ◌∷◌, ◌++◌, ◌==◌,
  if◌then◌else◌, leb, ltb, count, count-snoc, arith, Bool-cases, inl, inr, eq-of-==,
}
use dswp_plus.Build.Blocks.Peel.{
  Dummy, top_half, bottom_half, exit_dummy, branches, cases_of, switch_of, first_dest,
}
use dswp_plus.Build.Blocks.Dummies.{
  Tables, LoopBlocks, halves, found, address, add_returns, return_blocks,
}

module _ (c : LoopBlocks) where
  -- The block precedes one of the blocks behind the loop.
  abbrev pub precedes : List ℕ → ℕ → Bool
  precedes [] b = false
  precedes (e ∷ es) b = ltb 0 (count b (c.predecessors e)) || precedes es b

  add_returns_lem :
      (bs rs : List ℕ) (b : ℕ)
      → ltb 0 (count b (add_returns c bs rs))
        ≡ (ltb 0 (count b rs) || (c.contains b && ltb 0 (count b bs)))
  unfolding add_returns
  add_returns_lem [] rs b = ground arith
  add_returns_lem (x ∷ bs) rs b =
      let next = if c.contains x then (if ltb 0 (count x rs) then rs else rs ++ (x ∷ [])) else rs in
      let rest = add_returns_lem bs next b in
      elim (Bool-cases (b == x)) [
        | inl e ↦
            let e' = eq-of-== b x e in ground (arith, rest, e', ap c.contains e', count-snoc b x rs)
        | inr e ↦ ground (arith, rest, e, count-snoc b x rs)
      ]

  pub return_blocks_lem :
      (es rs : List ℕ) (b : ℕ)
      → ltb 0 (count b (return_blocks c es rs))
        ≡ (ltb 0 (count b rs) || (c.contains b && precedes es b))
  unfolding return_blocks
  return_blocks_lem [] rs b = ground arith
  return_blocks_lem (e ∷ es) rs b = ground (
    arith,
    return_blocks_lem es (add_returns c (c.predecessors e) rs) b,
    add_returns_lem (c.predecessors e) rs b,
  )

  -- What the dummy block branches to: the exit, or a half of a block of the loop.
  abbrev pub Inner : Dummy → Type 0
  Inner exit_dummy = Unit
  Inner (top_half b) = c.contains b ≡ true
  Inner (bottom_half b) = c.contains b ≡ true

  module _ (num : ℕ → ℕ) (returns : ℕ → Bool) where
    cases_of-Inner :
        (dest : ℕ → Dummy) (ss : List ℕ)
        → ((s : ℕ) → c.contains s ≡ true → Inner (dest s))
        → (y : Dummy) → Memᴰ y (cases_of num c.contains returns c.successors dest ss)
        → Inner y
    unfolding cases_of
    cases_of-Inner dest [] h y m = absurd (Memᴰ.not-nil m)
    cases_of-Inner dest (s ∷ ss) h y m = elim (Bool-cases (c.contains s)) [
      | inl e ↦ elim (Memᴰ.cases_cons (rw e at m)) [
        | inl same ↦ subst Inner (sym same) (h s e)
        | inr n ↦ cases_of-Inner dest ss h y n
      ]
      | inr e ↦ cases_of-Inner dest ss h y (rw e at m)
    ]

    switch_of-Inner :
        (leaves : Bool) (cases : List Dummy)
        → ((y : Dummy) → Memᴰ y cases → Inner y)
        → (y : Dummy) → Memᴰ y (switch_of num c.contains returns c.successors leaves cases)
        → Inner y
    unfolding switch_of
    switch_of-Inner true cases h y m = elim (Memᴰ.cases_cons m) [
      | inl same ↦ subst Inner (sym same) tt
      | inr n ↦ elim (Memᴰ.cases_cons n) [ inl same ↦ subst Inner (sym same) tt | inr n' ↦ h y n' ]
    ]
    switch_of-Inner false [] h y m = absurd (Memᴰ.not-nil m)
    switch_of-Inner false (d ∷ ds) h y m = elim (Memᴰ.cases_cons m) [
      | inl same ↦ h y (Memᴰ.head same)
      | inr n ↦ h y n
    ]

    first_dest-Inner :
        (b s : ℕ) → c.contains s ≡ true → Inner (first_dest num c.contains returns c.successors b s)
    unfolding first_dest
    first_dest-Inner b s h = elim (Bool-cases (leb (num s) (num b))) [
      | inl e ↦ rw e h
      | inr e ↦ rw e h
    ]

    pub branches-Inner :
        (x y : Dummy) → Memᴰ y (branches num c.contains returns c.successors x) → Inner y
    unfolding branches
    branches-Inner (top_half b) y m =
        switch_of-Inner (returns b) _ (cases_of-Inner _ (c.successors b) (first_dest-Inner b)) y m
    branches-Inner (bottom_half b) y m =
        switch_of-Inner (returns b) _ (cases_of-Inner bottom_half (c.successors b) (λ s h. h)) y m
    branches-Inner exit_dummy y m = absurd (Memᴰ.not-nil m)

  pub count-map :
      (s : ℕ) (ds : List Dummy)
      → 0 < count s (map (address c) ds)
      → (d : Dummy) × Memᴰ d ds × (s ≡ address c d)
  count-map s [] h = absurd (omega (arith, h))
  count-map s (d ∷ ds) h = elim (Bool-cases (s == address c d)) [
    | inl e ↦ (d, Memᴰ.head refl, eq-of-== s (address c d) e)
    | inr e ↦ let (x, m, q) = count-map s ds (ground (arith, h, e)) in (x, Memᴰ.tail m, q)
  ]

  -- The blocks of the loop have their halves in `realtodummy`.
  map_found :
      (t : Tables) (ds : List Dummy)
      → ((b : ℕ) → c.contains b ≡ true → halves t b ≡ (c.top b, c.bottom b))
      → ((d : Dummy) → Memᴰ d ds → Inner d)
      → map (found c t) ds ≡ map (address c) ds
  map_found t [] h i = refl
  map_found t (d ∷ ds) h i =
      let rest = map_found t ds h (λ y m. i y (Memᴰ.tail m)) in
      let same : found c t d ≡ address c d = found_lem d (i d (Memᴰ.head refl)) in
      ap (λ z. z ∷ map (found c t) ds) same ∙ ap (λ zs. address c d ∷ zs) rest
    where
      found_lem : (y : Dummy) → Inner y → found c t y ≡ address c y
      found_lem (top_half b) k = ap (λ (q : ℕ × ℕ). q.0) (h b k)
      found_lem (bottom_half b) k = ap (λ (q : ℕ × ℕ). q.1) (h b k)
      found_lem exit_dummy k = refl

  pub branches_found :
      (t : Tables) (num : ℕ → ℕ) (returns : ℕ → Bool) (x : Dummy)
      → ((b : ℕ) → c.contains b ≡ true → halves t b ≡ (c.top b, c.bottom b))
      → map (found c t) (branches num c.contains returns c.successors x)
        ≡ map (address c) (branches num c.contains returns c.successors x)
  branches_found t num returns x h = map_found t _ h (branches-Inner num returns x)
