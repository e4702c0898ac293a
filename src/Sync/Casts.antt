-- ===== src/Sync/Casts.antt =====
-- `DSWP::insertProduce` and `DSWP::insertConsume`: the casts that a value passes on its way through
-- a channel of 64-bit elements, and where the new instructions stand. The uses that `insertConsume`
-- replaces are in Uses.
pub mod RoundTrip
pub mod Branch
use dswp_plus.Base.{
  ℕ, Bool, true, false, Option, none, some, List, [], ◌∷◌, ◌++◌, ◌==◌, if◌then◌else◌, ◌>>=◌,
}
use dswp_plus.Pdg.{DType, reg, dtrue, danti, dout, dsyn, control, control_lc}

-- The types that the code tells apart; `floating` stands for those with `isFloatingPointTy` other
-- than `float`, by their width.
pub data Ty : Type 0 where
  integer : ℕ → Ty
  float : Ty
  floating : ℕ → Ty
  pointer : Ty
  other_type : Ty

pub data Cast : Type 0 where
  zext bit_cast ptr_to_int trunc int_to_ptr : Cast

-- What stands in a block: an instruction that was there, a cast to `eleType` or from it, and the
-- calls. `produce_call` has no cast where it sends the null value.
pub data Node : Type 0 where
  inst : ℕ → Node
  produce_cast : Cast → ℕ → Node
  produce_call : Option Cast → ℕ → Node
  consume_call : ℕ → Node
  consume_cast : Cast → ℕ → Node

abbrev pub is_reg : DType → Bool
is_reg reg = true
is_reg dtrue = false
is_reg danti = false
is_reg dout = false
is_reg dsyn = false
is_reg control = false
is_reg control_lc = false

-- The cast in `insertProduce`; `none` is the exit by `error`.
unfoldable pub produce_with : Ty → Option Cast
produce_with (integer w) = some zext
produce_with float = some bit_cast
produce_with (floating w) = some bit_cast
produce_with pointer = some ptr_to_int
produce_with other_type = none

-- The cast in `insertConsume`, for the same instruction `u`.
unfoldable pub consume_with : Ty → Option Cast
consume_with (integer w) = some trunc
consume_with float = none
consume_with (floating w) = some bit_cast
consume_with pointer = some int_to_ptr
consume_with other_type = none

unfoldable pub produce_nodes : DType → Ty → ℕ → ℕ → Option (List Node)
unfolding produce_with
produce_nodes dtype ty u channel =
    if is_reg dtype
    then (produce_with ty >>= λ c. some (produce_cast c u ∷ produce_call (some c) channel ∷ []))
    else some (produce_call none channel ∷ [])

unfoldable pub consume_nodes : DType → Ty → ℕ → Option (List Node)
unfolding consume_with
consume_nodes dtype ty channel =
    if is_reg dtype
    then (consume_with ty >>= λ c. some (consume_call channel ∷ consume_cast c channel ∷ []))
    else some (consume_call channel ∷ [])

abbrev pub is_inst : ℕ → Node → Bool
is_inst x (inst y) = x == y
is_inst x (produce_cast c u) = false
is_inst x (produce_call c k) = false
is_inst x (consume_call k) = false
is_inst x (consume_cast c k) = false

-- The block of `u` with `new` in front of `u->getNextNode()`. `past_end` tells what `getNextNode`
-- gives for the last instruction of a block: the end, where LLVM inserts as in front of an
-- instruction, or null, which is the exit by `error`. `none` also if the block lacks `u`.
unfoldable pub insert_behind : Bool → ℕ → List Node → List Node → Option (List Node)
insert_behind past_end u new [] = none
insert_behind past_end u new (n ∷ []) =
    if is_inst u n then (if past_end then some (n ∷ new) else none) else none
insert_behind past_end u new (n ∷ m ∷ ns) =
    let rest = insert_behind past_end u new (m ∷ ns) in
    if is_inst u n then some (n ∷ (new ++ (m ∷ ns))) else (rest >>= λ r. some (n ∷ r))

unfoldable pub insert_front : ℕ → List Node → List Node → Option (List Node)
insert_front pos new [] = none
insert_front pos new (n ∷ ns) =
    let rest = insert_front pos new ns in
    if is_inst pos n then some (new ++ (n ∷ ns)) else (rest >>= λ r. some (n ∷ r))

unfoldable pub insert_produce : Bool → DType → Ty → ℕ → ℕ → List Node → Option (List Node)
unfolding produce_nodes insert_behind
insert_produce past_end dtype ty u channel block =
    produce_nodes dtype ty u channel >>= λ new. insert_behind past_end u new block

-- `place` and `copy` are what `placeEquivalents` and `instMap` of the consumer's thread have for the
-- old instruction, `none` for a null pointer.
unfoldable pub insert_consume :
    DType → Ty → Option ℕ → Option ℕ → ℕ → List Node → Option (List Node)
unfolding consume_nodes insert_front
insert_consume dtype ty place copy channel block =
    elim place [ none ↦ copy | some p ↦ some p ] >>= λ pos.
    consume_nodes dtype ty channel >>= λ new. insert_front pos new block
