-- ===== src/Sync/Uses.antt =====
-- The last part of `DSWP::insertConsume` (DSWP_5.cpp): in the function of the consumer the uses of the
-- old instruction are replaced by the value that was received.
pub mod Renamed
pub mod Remaining
pub mod Replaced
mod Tests
use dswp_plus.Base.{ℕ, Bool, Option, none, some, List, [], ◌∷◌, ◌==◌, if◌then◌else◌, update, ◌>>=◌}
use dswp_plus.Pdg.{DType}
use dswp_plus.Split.Uses.{replace_uses}
use dswp_plus.Sync.Casts.{is_reg}

-- `reps` with the one entry.
abbrev pub entry : ℕ → ℕ → ℕ → Option ℕ
entry old new x = if x == old then some new else none

-- `func_of` is the function of an instruction. The operands of the instructions are a table.
module _ (func_of : ℕ → ℕ) where
  -- The loop over the users that the iterator comes to. `none` in the list is a user that is no
  -- instruction, which is the exit by `error`.
  unfoldable pub replace_in : ℕ → ℕ → ℕ → List (Option ℕ) → (ℕ → List ℕ) → Option (ℕ → List ℕ)
  unfolding replace_uses
  replace_in f old new [] ops = some ops
  replace_in f old new (none ∷ us) ops = none
  replace_in f old new (some user ∷ us) ops =
      let ops' =
        if func_of user == f
        then update ops user (replace_uses (entry old new) (ops user))
        else ops in
      replace_in f old new us ops'

  module _ (visit : ℕ → (ℕ → List ℕ) → List (Option ℕ)) where
    -- `visit` gives the users that the iterator over the uses comes to: as the loop changes the list
    -- of the uses while it walks in it, these need not be all. `cast` is the cast of the received value.
    unfoldable pub replace_received : DType → ℕ → ℕ → ℕ → (ℕ → List ℕ) → Option (ℕ → List ℕ)
    unfolding replace_in
    replace_received dtype f old cast ops =
        if is_reg dtype then replace_in f old cast (visit old ops) ops else some ops

    -- The calls for the channels from one value into one function, each with its type and its cast.
    unfoldable pub receive_all : ℕ → ℕ → List (DType × ℕ) → (ℕ → List ℕ) → Option (ℕ → List ℕ)
    unfolding replace_received
    receive_all f old [] ops = some ops
    receive_all f old (c ∷ cs) ops =
        replace_received c.0 f old c.1 ops >>= λ ops'. receive_all f old cs ops'
