-- ===== src/Build/Blocks/Tests.antt =====
-- A loop of three blocks: 0 leads to 1 and 2, both lead back to 0, and 2 may leave the loop.
use mathlib.Core.List.{Memᴰ}
use dswp_plus.Base.{ℕ, refl, List, [], ◌∷◌, ◌==◌, ltb, if◌then◌else◌, Bool, ◌<◌}
use dswp_plus.Build.Blocks.Peel.{top_half, instnum, branches, Trail, Trail-Leads}

abbrev successors : ℕ → List ℕ
successors b = if b == 0 then 1 ∷ 2 ∷ [] else if b == 1 then 0 ∷ [] else 0 ∷ 9 ∷ []

abbrev contains : ℕ → Bool
contains b = ltb b 3

-- `bb_ordered` is 1, 2, 0.
abbrev num : ℕ → ℕ
unfolding instnum
num b = instnum (0 ∷ 2 ∷ 1 ∷ []) b

abbrev returns : ℕ → Bool
returns b = b == 2

zero_to_two : Trail num contains returns successors (top_half 0) (top_half 2)
unfolding branches num
zero_to_two = Trail.one (Memᴰ.tail (Memᴰ.tail (Memᴰ.head refl)))

Trail-Leads_example : num 0 < num 2
Trail-Leads_example =
    Trail-Leads num contains returns successors (top_half 0) (top_half 2) zero_to_two
