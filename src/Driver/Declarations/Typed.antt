-- ===== src/Driver/Declarations/Typed.antt =====
-- The calls of the generated code (DSWP_4.cpp, DSWP_5.cpp) against the declarations of
-- `doInitialization` (DSWP_0.cpp), and those against the prototypes of the runtime.
use mathlib.Core.List.{map}
use dswp_plus.Base.{
  ℕ, zero, suc, ◌≡◌, refl, ◌+◌, Bool, true, false, Option, none, some, List, [], ◌∷◌, ◌++◌,
  if◌then◌else◌, ◌>>=◌,
}
use dswp_plus.Pdg.{DType}
use dswp_plus.Partition.{max_thread}
use dswp_plus.Split.Pre.{
  Op, alloca, store_arg, call_init, delegate, call_join, load_out, jump_exit, store_args, delegates,
  load_outs, replace_block,
}
use dswp_plus.Sync.Casts.{
  Ty, Cast, Node, inst, produce_cast, produce_call, consume_call, consume_cast, is_reg,
  produce_nodes, consume_nodes, produce_with, consume_with,
}
use dswp_plus.Driver.Declarations.{
  LlvmTy, void_ty, int_ty, ptr_ty, int8_ptr_ty, ele_ty, worker_ty, Name, Module, declare,
  declare_all, do_initialization, CTy, c_void, c_int, c_ull, c_void_ptr, c_fun_ptr, prototype,
  sync_produce, sync_consume, sync_join, sync_init, sync_delegate, show_value, show_place, show_ptr,
}

-- LLVM's type for a type of C on a machine of 64 bits.
abbrev pub lowered : CTy → LlvmTy
lowered c_void = void_ty
lowered c_int = int_ty 32
lowered c_ull = int_ty 64
lowered c_void_ptr = int8_ptr_ty
lowered c_fun_ptr = ptr_ty worker_ty

-- A call: its function by name, the types of its arguments, and that of the value it is used for.
pub record Called : Type 0 where
  pub callee : Name
  pub arg_types : List LlvmTy
  pub used_as : LlvmTy

-- The calls of the block that takes the place of the loop. The thread's number is an `int32`, its
-- function has the type with which `preLoopSplit` makes it, and the struct is cast to `i8*`.
abbrev pub op_call : Op → Option Called
op_call call_init = some (record { callee = sync_init; arg_types = []; used_as = void_ty })
op_call (delegate i) = some (record {
  callee = sync_delegate;
  arg_types = int_ty 32 ∷ ptr_ty worker_ty ∷ int8_ptr_ty ∷ [];
  used_as = void_ty;
})
op_call call_join = some (record { callee = sync_join; arg_types = []; used_as = void_ty })
op_call alloca = none
op_call (store_arg j x) = none
op_call (load_out j) = none
op_call jump_exit = none

-- The type of what `insertProduce` sends: a cast to `eleType`, or the null value.
abbrev pub sent_ty : Option Cast → LlvmTy
sent_ty none = int_ty 64
sent_ty (some c) = ele_ty

-- The calls in the functions of the threads. The casts behind `sync_consume` are from 64 bits.
abbrev pub node_call : Node → Option Called
node_call (produce_call c k) =
    some
      (record { callee = sync_produce; arg_types = sent_ty c ∷ int_ty 32 ∷ []; used_as = void_ty })
node_call (consume_call k) =
    some (record { callee = sync_consume; arg_types = int_ty 32 ∷ []; used_as = int_ty 64 })
node_call (inst x) = none
node_call (produce_cast c u) = none
node_call (consume_cast c k) = none

-- The call fits a function of the module.
abbrev pub Fits : Module → Option Called → Type 0
Fits m none = Unit
Fits m (some c) = m c.callee ≡ some (record { result = c.used_as; args = c.arg_types })

abbrev pub OpTyped : Module → Op → Type 0
OpTyped m o = Fits m (op_call o)

abbrev pub NodeTyped : Module → Node → Type 0
NodeTyped m n = Fits m (node_call n)

abbrev pub All {ℓ} : {A : Type ℓ} → (A → Type 0) → List A → Type 0
All P [] = Unit
All P (x ∷ xs) = P x × All P xs

abbrev pub AllIf {ℓ} : {A : Type ℓ} → (A → Type 0) → Option (List A) → Type 0
AllIf P none = Unit
AllIf P (some xs) = All P xs

All-append {ℓ} :
    {A : Type ℓ} (P : A → Type 0) (xs ys : List A) → All P xs → All P ys → All P (xs ++ ys)
All-append P [] ys p q = q
All-append P (x ∷ xs) ys p q = (p.0, All-append P xs ys p.1 q)

-- Every function of the runtime is declared as its prototype has it.
pub record IsDeclared (m : Module) : Type 0 where
  pub declared :
      (n : Name)
      → m n
        ≡ some (record {
          result = lowered (prototype n).result;
          args = map lowered (prototype n).params;
        })

do_initialization-IsDeclared :
    (m : Module)
    → ((n : Name) → m n ≡ none)
    → (do_initialization m ≡ (declare_all m, true)) × IsDeclared (declare_all m)
unfolding do_initialization declare_all declare
do_initialization-IsDeclared m fresh =
    (rw (do_initialization, fresh sync_produce) refl, record { declared = each })
  where
    each :
        (n : Name)
        → declare_all m n
          ≡ some (record {
            result = lowered (prototype n).result;
            args = map lowered (prototype n).params;
          })
    each sync_produce = rw (declare_all, declare, fresh sync_produce) refl
    each sync_consume = rw (declare_all, declare, fresh sync_consume) refl
    each sync_join = rw (declare_all, declare, fresh sync_join) refl
    each sync_init = rw (declare_all, declare, fresh sync_init) refl
    each sync_delegate = rw (declare_all, declare, fresh sync_delegate) refl
    each show_value = rw (declare_all, declare, fresh show_value) refl
    each show_place = rw (declare_all, declare, fresh show_place) refl
    each show_ptr = rw (declare_all, declare, fresh show_ptr) refl

store_args-typed : (m : Module) (j : ℕ) (xs : List ℕ) → All (OpTyped m) (store_args j xs)
unfolding store_args
store_args-typed m j [] = tt
store_args-typed m j (x ∷ xs) = (tt, store_args-typed m (j + 1) xs)

load_outs-typed : (m : Module) (j : ℕ) (xs : List ℕ) → All (OpTyped m) (load_outs j xs)
unfolding load_outs
load_outs-typed m j [] = tt
load_outs-typed m j (x ∷ xs) = (tt, load_outs-typed m (j + 1) xs)

module _ (m : Module) (d : IsDeclared m) where
  delegates-typed : (n i : ℕ) → All (OpTyped m) (delegates n i)
  unfolding delegates
  delegates-typed zero i = tt
  delegates-typed (suc n) i = (d.declared sync_delegate, delegates-typed n (i + 1))

  replace_block-typed : (livein liveout : List ℕ) → All (OpTyped m) (replace_block livein liveout)
  unfolding replace_block
  replace_block-typed livein liveout =
      let back : List Op = call_join ∷ load_outs 0 liveout in
      let middle : List Op = call_init ∷ delegates max_thread 0 in
      All-append (OpTyped m) (alloca ∷ store_args 0 livein) (middle ++ (back ++ (jump_exit ∷ [])))
        (tt, store_args-typed m 0 livein)
        (All-append (OpTyped m) middle (back ++ (jump_exit ∷ []))
          (d.declared sync_init, delegates-typed max_thread 0)
          (All-append (OpTyped m) back (jump_exit ∷ [])
            (d.declared sync_join, load_outs-typed m 0 liveout) (tt, tt)))

  sent : (c : Option Cast) → NodeTyped m (produce_call c 0)
  sent none = d.declared sync_produce
  sent (some c) = d.declared sync_produce

  produce_nodes-typed :
      (dtype : DType) (ty : Ty) (u k : ℕ) → AllIf (NodeTyped m) (produce_nodes dtype ty u k)
  unfolding produce_nodes
  produce_nodes-typed dtype ty u k = produced (is_reg dtype) (produce_with ty)
    where
      produced :
          (r : Bool) (c : Option Cast)
          → AllIf (NodeTyped m) (
              if r
              then (c >>= λ x. some (produce_cast x u ∷ produce_call (some x) k ∷ []))
              else some (produce_call none k ∷ []))
      produced true none = tt
      produced true (some x) = (tt, (sent (some x), tt))
      produced false c = (sent none, tt)

  consume_nodes-typed :
      (dtype : DType) (ty : Ty) (k : ℕ) → AllIf (NodeTyped m) (consume_nodes dtype ty k)
  unfolding consume_nodes
  consume_nodes-typed dtype ty k = consumed (is_reg dtype) (consume_with ty)
    where
      consumed :
          (r : Bool) (c : Option Cast)
          → AllIf (NodeTyped m) (
              if r
              then (c >>= λ x. some (consume_call k ∷ consume_cast x k ∷ []))
              else some (consume_call k ∷ []))
      consumed true none = tt
      consumed true (some x) = (d.declared sync_consume, (tt, tt))
      consumed false c = (d.declared sync_consume, tt)

-- Let the module have none of the runtime's functions. `doInitialization` declares them, as their
-- prototypes in the runtime have them on a machine of 64 bits, and a second call of it changes nothing
-- and says so. Every call that `preLoopSplit` puts into the new block, and that `insertProduce` and
-- `insertConsume` make, has the arguments and the result of the function declared.
pub do_initialization-typed :
    (m : Module)
    → ((n : Name) → m n ≡ none)
    → (m' : Module) × (do_initialization m ≡ (m', true))
      × (do_initialization m' ≡ (m', false))
      × IsDeclared m'
      × ((livein liveout : List ℕ) → All (OpTyped m') (replace_block livein liveout))
      × ((dtype : DType) (ty : Ty) (u k : ℕ)
          → AllIf (NodeTyped m') (produce_nodes dtype ty u k)
            × AllIf (NodeTyped m') (consume_nodes dtype ty k))
unfolding do_initialization declare_all
do_initialization-typed m fresh =
    let (e, d) = do_initialization-IsDeclared m fresh in
    (
      declare_all m,
      e,
      rw (do_initialization, d.declared sync_produce) refl,
      d,
      replace_block-typed (declare_all m) d,
      λ dtype ty u k. (
        produce_nodes-typed (declare_all m) d dtype ty u k,
        consume_nodes-typed (declare_all m) d dtype ty k,
      ),
    )
