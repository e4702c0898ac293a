-- ===== src/Build/Blocks/Peel.antt =====
-- The branches of the dummy blocks in `buildPDG` (DSWP_1.cpp), which peel the first iteration off
-- the loop: a top half for it, and a bottom half for the iterations behind it.
use mathlib.Core.List.{Memᴰ}
use mathlib.Core.List.Memᴰ
use dswp_plus.Base.{
  ℕ, sym, subst, ◌+◌, ◌<◌, Bool, true, false, List, [], ◌∷◌, ◌==◌, leb, if◌then◌else◌, arith,
  Bool-cases, inl, inr,
}

pub data Dummy : Type 0 where
  top_half : ℕ → Dummy
  bottom_half : ℕ → Dummy
  exit_dummy : Dummy

-- `instnum`: the place of a block in `bb_ordered` read from its end.
unfoldable pub instnum : List ℕ → ℕ → ℕ
instnum [] b = 0
instnum (x ∷ xs) b = if x == b then 0 else instnum xs b + 1

-- `num` is `instnum` for the blocks, `contains` is `L->contains`, `returns` tells whether a block is
-- in `returnblocks`, and `successors` lists those of the real block's terminator.
module _ (num : ℕ → ℕ) (contains returns : ℕ → Bool) (successors : ℕ → List ℕ) where
  -- `destblock1`
  unfoldable pub first_dest : ℕ → ℕ → Dummy
  first_dest b s = if leb (num s) (num b) then bottom_half s else top_half s

  -- The loop over the successors: the cases of the switch, for a given choice of the target.
  unfoldable pub cases_of : (ℕ → Dummy) → List ℕ → List Dummy
  cases_of dest [] = []
  cases_of dest (s ∷ ss) = if contains s then dest s ∷ cases_of dest ss else cases_of dest ss

  -- The targets of the switch, the default first: the exit for a block that may leave the loop, and
  -- the target of the first case otherwise; no switch where there is neither.
  unfoldable pub switch_of : Bool → List Dummy → List Dummy
  switch_of true cases = exit_dummy ∷ exit_dummy ∷ cases
  switch_of false [] = []
  switch_of false (d ∷ ds) = d ∷ d ∷ ds

  unfoldable pub branches : Dummy → List Dummy
  unfolding first_dest cases_of switch_of
  branches (top_half b) = switch_of (returns b) (cases_of (first_dest b) (successors b))
  branches (bottom_half b) = switch_of (returns b) (cases_of bottom_half (successors b))
  branches exit_dummy = []

  -- A way of one branch or more through the peeled loop.
  pub data Trail : Dummy → Dummy → Type 0 where
    one : {x y : Dummy} → Memᴰ y (branches x) → Trail x y
    more : {x y z : Dummy} → Memᴰ y (branches x) → Trail y z → Trail x z

  -- Where a way may lead: to the exit, to the bottom half of any block, or from a top half to
  -- that of a later block.
  abbrev pub Leads : Dummy → Dummy → Type 0
  Leads x exit_dummy = Unit
  Leads x (bottom_half c) = Unit
  Leads (top_half b) (top_half c) = num b < num c
  Leads (bottom_half b) (top_half c) = ⊥
  Leads exit_dummy (top_half c) = ⊥

  first_dest-Leads : (b s : ℕ) → Leads (top_half b) (first_dest b s)
  unfolding first_dest
  first_dest-Leads b s = elim (Bool-cases (leb (num s) (num b))) [
    | inl e ↦ rw e tt
    | inr e ↦ rw e (ground (arith, e))
  ]

  cases_of-Leads :
      (x : Dummy) (dest : ℕ → Dummy) (ss : List ℕ)
      → ((s : ℕ) → Leads x (dest s))
      → (y : Dummy) → Memᴰ y (cases_of dest ss)
      → Leads x y
  unfolding cases_of
  cases_of-Leads x dest [] h y m = absurd (Memᴰ.not-nil m)
  cases_of-Leads x dest (s ∷ ss) h y m = elim (Bool-cases (contains s)) [
    | inl e ↦ elim (Memᴰ.cases_cons (rw e at m)) [
      | inl same ↦ subst (Leads x) (sym same) (h s)
      | inr n ↦ cases_of-Leads x dest ss h y n
    ]
    | inr e ↦ cases_of-Leads x dest ss h y (rw e at m)
  ]

  switch_of-Leads :
      (x : Dummy) (leaves : Bool) (cases : List Dummy)
      → ((y : Dummy) → Memᴰ y cases → Leads x y)
      → (y : Dummy) → Memᴰ y (switch_of leaves cases)
      → Leads x y
  unfolding switch_of
  switch_of-Leads x true cases h y m = elim (Memᴰ.cases_cons m) [
    | inl same ↦ subst (Leads x) (sym same) tt
    | inr n ↦ elim (Memᴰ.cases_cons n) [
      | inl same ↦ subst (Leads x) (sym same) tt
      | inr n' ↦ h y n'
    ]
  ]
  switch_of-Leads x false [] h y m = absurd (Memᴰ.not-nil m)
  switch_of-Leads x false (d ∷ ds) h y m = elim (Memᴰ.cases_cons m) [
    | inl same ↦ h y (Memᴰ.head same)
    | inr n ↦ h y n
  ]

  branches-Leads : (x y : Dummy) → Memᴰ y (branches x) → Leads x y
  unfolding branches
  branches-Leads (top_half b) y m =
      switch_of-Leads (top_half b) (returns b) (cases_of (first_dest b) (successors b))
        (cases_of-Leads (top_half b) (first_dest b) (successors b) (first_dest-Leads b)) y m
  branches-Leads (bottom_half b) y m =
      switch_of-Leads (bottom_half b) (returns b) (cases_of bottom_half (successors b))
        (cases_of-Leads (bottom_half b) bottom_half (successors b) (λ s. tt)) y m
  branches-Leads exit_dummy y m = absurd (Memᴰ.not-nil m)

  Leads-trans : (x y z : Dummy) → Leads x y → Leads y z → Leads x z
  Leads-trans x y exit_dummy p q = tt
  Leads-trans x y (bottom_half d) p q = tt
  Leads-trans (top_half b) (top_half c) (top_half d) p q = omega arith
  Leads-trans (bottom_half b) (top_half c) (top_half d) p q = absurd p
  Leads-trans exit_dummy (top_half c) (top_half d) p q = absurd p
  Leads-trans x (bottom_half c) (top_half d) p q = absurd q
  Leads-trans x exit_dummy (top_half d) p q = absurd q

  -- A way through the peeled loop from a top half to a top half leads to a block with a larger
  -- `instnum`, so that no top half is on a cycle; and from a bottom half no way leads to a top half.
  pub Trail-Leads : (x y : Dummy) → Trail x y → Leads x y
  Trail-Leads x y (Trail.one m) = branches-Leads x y m
  Trail-Leads x y (Trail.more {y = z} m t) =
      Leads-trans x z y (branches-Leads x z m) (Trail-Leads z y t)
