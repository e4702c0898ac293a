-- ===== src/Sync/Clean.antt =====
-- `DSWP::cleanup` (DSWP_5.cpp) up to the deletion of the loop: in every block of the threads' functions, what
-- stands behind the terminator moves in front of it, and then the phi nodes move to the top.
pub mod Tidy
use mathlib.Core.List.{reverse}
use dswp_plus.Base.{Bool, true, Option, none, some, List, [], ◌∷◌, ◌++◌, if◌then◌else◌, ◌>>=◌}

-- A block cut at its first terminator, and one cut at its first instruction that is no phi node.
pub record Cut (A : Type 0) : Type 0 where
  pub before : List A
  pub at : A
  pub after : List A

-- `isa<TerminatorInst>` and `isa<PHINode>` are LLVM's.
module _ {A : Type 0} (is_term is_phi : A → Bool) where
  -- The loop that looks for `term`.
  unfoldable pub find_term : List A → List A → Option (Cut A)
  find_term before [] = none
  find_term before (x ∷ xs) =
      if is_term x
      then some (record { before = before; at = x; after = xs })
      else find_term (before ++ (x ∷ [])) xs

  -- `while (true)`: the last instruction moves in front of `term`, until it is a terminator. The
  -- instructions behind `term` are listed from the last one on.
  unfoldable pub sink : List A → A → List A → List A
  sink before term [] = before ++ (term ∷ [])
  sink before term (last ∷ back) =
      if is_term last
      then before ++ (term ∷ reverse (last ∷ back))
      else sink (before ++ (last ∷ [])) term back

  -- The body of the first loop; `none` is the exit by `error`.
  unfoldable pub move_produces : List A → Option (List A)
  unfolding find_term sink
  move_produces block = find_term [] block >>= λ c. some (sink c.before c.at (reverse c.after))

  -- `getFirstNonPHI`; `none` where there is none and the code runs past the end.
  unfoldable pub first_nonphi : List A → List A → Option (Cut A)
  first_nonphi before [] = none
  first_nonphi before (x ∷ xs) =
      if is_phi x
      then first_nonphi (before ++ (x ∷ [])) xs
      else some (record { before = before; at = x; after = xs })

  -- The loop over the instructions behind `first_nonphi`: what is in front of it, itself, those
  -- behind it that were passed, and those still to come.
  unfoldable pub raise : List A → A → List A → List A → List A
  raise top first passed [] = top ++ (first ∷ passed)
  raise top first passed (x ∷ xs) =
      if is_phi x
      then raise (top ++ (x ∷ [])) first passed xs
      else raise top first (passed ++ (x ∷ [])) xs

  -- The body of the second loop.
  unfoldable pub move_phis : List A → Option (List A)
  unfolding first_nonphi raise
  move_phis block = first_nonphi [] block >>= λ c. some (raise c.before c.at [] c.after)

  -- A loop over the blocks.
  unfoldable pub each_block : (List A → Option (List A)) → List (List A) → Option (List (List A))
  each_block f [] = some []
  each_block f (b ∷ bs) = f b >>= λ b'. each_block f bs >>= λ bs'. some (b' ∷ bs')

  unfoldable pub clean_up : List (List A) → Option (List (List A))
  unfolding move_produces move_phis each_block
  clean_up blocks = each_block move_produces blocks >>= λ bs. each_block move_phis bs
