-- ===== src/Split/Code/Copy.antt =====
-- The copying of the instructions of a thread's blocks: lines 271 to 394 of DSWP_4.cpp.
pub mod Next
pub mod Placed
pub mod Thread
use dswp_plus.Base.{
  ℕ, ◌≡◌, Bool, true, false, ◌||◌, Option, none, some, List, [], ◌∷◌, ◌++◌, ◌==◌, if◌then◌else◌,
  update, ℤ, pos, ◌==ℤ◌,
}
use dswp_plus.Base.Result.{Result, ok, exits, no_fuel, ◌>>=◌}
use dswp_plus.Split.Code.Target.{Cfg, NewInst, new_inst}

-- The members and variables that the loop writes, for one thread: `instMap[i]`,
-- `placeEquivalents[i]`, `newToOld` and `newInstAssigned`, the new blocks with their instructions, and
-- `instructions_to_point`. An absent key is `none`.
pub record Copies : Type 0 where
  pub inst_map : ℕ → Option ℕ
  pub places : ℕ → Option ℕ
  pub new_to_old : ℕ → Option ℕ
  pub new_assigned : ℕ → Option ℕ
  pub body : ℕ → List (ℕ × NewInst)
  pub to_point : List ℕ

-- The loop over `instructions_to_point`.
unfoldable pub point_all : ℕ → List ℕ → (ℕ → Option ℕ) → ℕ → Option ℕ
point_all n [] places = places
point_all n (p ∷ ps) places = point_all n ps (update places p (some n))

-- `thread` is `assigned[sccId[inst]]`, `i` the thread, and `copy` gives the address of the instruction
-- that the thread gets for an old one.
module _ (c : Cfg) (fuel : ℕ) (bb_map : ℕ → Option ℕ) (thread : ℕ → ℤ) (i : ℕ) (copy : ℕ → ℕ) where
  -- Whether the thread gets the instruction.
  abbrev pub keeps : ℕ → Bool
  keeps x = (thread x ==ℤ pos i) || c.is_term x

  -- From the entry into `instMap` on.
  unfoldable pub add_copy : ℕ → ℕ → NewInst → Copies → Copies
  unfolding point_all
  add_copy block x new s = record {
    inst_map = update s.inst_map x (some (copy x));
    places = point_all (copy x) s.to_point s.places;
    new_to_old = update s.new_to_old (copy x) (some x);
    new_assigned = update s.new_assigned (copy x) (some i);
    body = update s.body block (s.body block ++ ((copy x, new) ∷ []));
    to_point = [];
  }

  -- The loop over the instructions of a block, whose copy is `block`.
  unfoldable pub copy_insts : ℕ → List ℕ → Copies → Result Copies
  unfolding new_inst add_copy
  copy_insts block [] s = ok s
  copy_insts block (x ∷ xs) s =
      if keeps x
      then (new_inst c fuel bb_map x >>= λ new. copy_insts block xs (add_copy block x new s))
      else copy_insts block xs (record s { to_point = s.to_point ++ (x ∷ []) })

  -- The check behind it.
  unfoldable pub check_pointed : List ℕ → Copies → Result Copies
  check_pointed [] s = ok s
  check_pointed (x ∷ xs) s = exits

  -- The loop over `relbb`; `copied` is `BBMap` for a block of it.
  unfoldable pub copy_blocks : (ℕ → ℕ) → List ℕ → Copies → Result Copies
  unfolding copy_insts check_pointed
  copy_blocks copied [] s = ok s
  copy_blocks copied (b ∷ bs) s = copy_insts (copied b) (c.insts_of b) s >>= λ t.
      check_pointed t.to_point t >>= λ u. copy_blocks copied bs u
