-- ===== src/Driver/Declarations.antt =====
-- `DSWP::doInitialization` (DSWP_0.cpp): the declarations of the runtime's functions, and the prototypes
-- that the runtime has for them (runtime/simple_sync.h, runtime/runtime_debug.h).
pub mod Typed
mod Tests
use dswp_plus.Base.{ℕ, Bool, true, false, Option, none, some, List, [], ◌∷◌, ◌==◌, if◌then◌else◌}

-- LLVM's types, as far as the declarations need them; `fun_type` is that of a function of one argument.
pub data LlvmTy : Type 0 where
  void_ty : LlvmTy
  int_ty : ℕ → LlvmTy
  ptr_ty : LlvmTy → LlvmTy
  fun_type : LlvmTy → LlvmTy → LlvmTy

abbrev pub int8_ptr_ty : LlvmTy
int8_ptr_ty = ptr_ty (int_ty 8)

-- The type `eleType` of what a channel holds.
abbrev pub ele_ty : LlvmTy
ele_ty = int_ty 64

-- A thread's function.
abbrev pub worker_ty : LlvmTy
worker_ty = fun_type int8_ptr_ty int8_ptr_ty

pub data Name : Type 0 where
  sync_produce sync_consume sync_join sync_init sync_delegate : Name
  show_value show_place show_ptr : Name

abbrev pub number : Name → ℕ
number sync_produce = 0
number sync_consume = 1
number sync_join = 2
number sync_init = 3
number sync_delegate = 4
number show_value = 5
number show_place = 6
number show_ptr = 7

pub record Signature : Type 0 where
  pub result : LlvmTy
  pub args : List LlvmTy

-- What `getFunction` gives for a name in the module, `none` for NULL.
abbrev pub Module : Type 0
Module = Name → Option Signature

-- `Function::Create`; LLVM gives the new function another name if the module has one of that name.
unfoldable pub declare : Name → LlvmTy → List LlvmTy → Module → Module
declare n result args m k = elim (m k) [
  | some s ↦ some s
  | none ↦ if number n == number k then some (record { result = result; args = args }) else none
]

unfoldable pub declare_all : Module → Module
unfolding declare
declare_all m =
    let m1 = declare sync_produce void_ty (ele_ty ∷ int_ty 32 ∷ []) m in
    let m2 = declare sync_consume ele_ty (int_ty 32 ∷ []) m1 in
    let m3 = declare sync_join void_ty [] m2 in
    let m4 = declare sync_init void_ty [] m3 in
    let m5 = declare sync_delegate void_ty (int_ty 32 ∷ ptr_ty worker_ty ∷ int8_ptr_ty ∷ []) m4 in
    let m6 = declare show_value void_ty (int_ty 64 ∷ []) m5 in
    let m7 = declare show_place void_ty [] m6 in declare show_ptr void_ty (int8_ptr_ty ∷ []) m7

unfoldable pub do_initialization : Module → Module × Bool
unfolding declare_all
do_initialization m = elim (m sync_produce) [ none ↦ (declare_all m, true) | some s ↦ (m, false) ]

-- The types of C in the prototypes of the runtime.
pub data CTy : Type 0 where
  c_void c_int c_ull c_void_ptr c_fun_ptr : CTy

-- A prototype: the result, and the types of the parameters.
pub record Prototype : Type 0 where
  pub result : CTy
  pub params : List CTy

-- The functions that print, of runtime/runtime_debug.h.
abbrev pub show_value_prototype : Prototype
show_value_prototype = record { result = c_void; params = c_ull ∷ [] }

abbrev pub show_place_prototype : Prototype
show_place_prototype = record { result = c_void; params = [] }

abbrev pub show_ptr_prototype : Prototype
show_ptr_prototype = record { result = c_void; params = c_void_ptr ∷ [] }

-- The functions of runtime/simple_sync.h, and those above.
abbrev pub prototype : Name → Prototype
prototype sync_produce = record { result = c_void; params = c_ull ∷ c_int ∷ [] }
prototype sync_consume = record { result = c_ull; params = c_int ∷ [] }
prototype sync_join = record { result = c_void; params = [] }
prototype sync_init = record { result = c_void; params = [] }
prototype sync_delegate = record { result = c_void; params = c_int ∷ c_fun_ptr ∷ c_void_ptr ∷ [] }
prototype show_value = show_value_prototype
prototype show_place = show_place_prototype
prototype show_ptr = show_ptr_prototype
