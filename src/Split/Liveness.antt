-- ===== src/Split/Liveness.antt =====
-- `DSWP::getLiveinfo`: the values that the loop defines, takes in and gives out.
pub mod Exact
use dswp_plus.Base.{
  ℕ, Bool, true, false, not, ◌&&◌, Option, none, some, List, [], ◌∷◌, ◌++◌, ◌==◌, if◌then◌else◌,
  ◌>>=◌,
}

-- A use of a value: by an instruction, or by something else.
pub data Use : Type 0 where
  by_inst : ℕ → Use
  by_other : Use

-- What the code asks of LLVM: whether the type is void, the uses, the operands, whether a value is
-- an instruction or an argument, and whether an instruction is in the loop.
pub record Values : Type 0 where
  pub is_void : ℕ → Bool
  pub uses : ℕ → List Use
  pub operands : ℕ → List ℕ
  pub is_variable : ℕ → Bool
  pub contains : ℕ → Bool

pub record LiveInfo : Type 0 where
  pub defin : List ℕ
  pub livein : List ℕ
  pub liveout : List ℕ

-- `find(l.begin(), l.end(), x) != l.end()`
unfoldable pub find : ℕ → List ℕ → Bool
find x [] = false
find x (y ∷ ys) = if x == y then true else find x ys

module _ (v : Values) where
  -- The loop over the uses of `inst`, with `already_liveouted`; `none` is the exit by `error`.
  unfoldable pub add_liveout : ℕ → Bool → List Use → List ℕ → Option (List ℕ)
  add_liveout inst already [] out = some out
  add_liveout inst already (by_other ∷ us) out = none
  add_liveout inst already (by_inst u ∷ us) out =
      if not already && not (v.contains u)
      then add_liveout inst true us (out ++ (inst ∷ []))
      else add_liveout inst already us out

  -- The first loop over the instructions of the loop's blocks.
  unfoldable pub define_all : List ℕ → LiveInfo → Option LiveInfo
  unfolding add_liveout
  define_all [] l = some l
  define_all (inst ∷ is) l = add_liveout inst false (v.uses inst) l.liveout >>= λ out.
      define_all is (record l {
        defin = if v.is_void inst then l.defin else l.defin ++ (inst ∷ []);
        liveout = out;
      })

  -- The loop over the operands of an instruction.
  unfoldable pub add_livein : List ℕ → List ℕ → List ℕ → List ℕ
  unfolding find
  add_livein defin [] livein = livein
  add_livein defin (op ∷ ops) livein = add_livein defin ops (
      if v.is_variable op && not (find op defin) && not (find op livein)
      then livein ++ (op ∷ [])
      else livein)

  -- The second loop over the instructions.
  unfoldable pub livein_all : List ℕ → List ℕ → List ℕ → List ℕ
  unfolding add_livein
  livein_all defin [] livein = livein
  livein_all defin (inst ∷ is) livein =
      livein_all defin is (add_livein defin (v.operands inst) livein)

  unfoldable pub get_liveinfo : List ℕ → Option LiveInfo
  unfolding define_all livein_all
  get_liveinfo insts = define_all insts (record { defin = []; livein = []; liveout = [] }) >>= λ l.
      some (record l { livein = livein_all l.defin insts l.livein })
