-- ===== src/Partition/Latency.antt =====
-- `DSWP::getLatency` of DSWP_3.cpp: the cost of an instruction by its opcode.
use dswp_plus.Base.{ℕ, ◌≤◌, arith}

-- The opcodes that the switch names, and `other` for any that it does not.
pub data Opcode : Type 0 where
  ret br switch : Opcode
  add fadd sub fsub mul fmul udiv sdiv fdiv urem srem frem : Opcode
  shl lshr ashr and or xor : Opcode
  extract_element insert_element shuffle_vector extract_value insert_value : Opcode
  alloca load store fence atomic_cmp_xchg atomic_rmw get_element_ptr : Opcode
  trunc zext sext fp_trunc fp_ext fp_to_ui fp_to_si ui_to_fp si_to_fp : Opcode
  ptr_to_int int_to_ptr bit_cast : Opcode
  icmp fcmp phi select call va_arg landing_pad other : Opcode

unfoldable pub get_latency : Opcode → ℕ
get_latency ret = 1
get_latency br = 0
get_latency switch = 0
get_latency add = 1
get_latency fadd = 4
get_latency sub = 1
get_latency fsub = 4
get_latency mul = 3
get_latency fmul = 4
get_latency udiv = 17
get_latency sdiv = 17
get_latency fdiv = 24
get_latency urem = 17
get_latency srem = 17
get_latency frem = 24
get_latency shl = 7
get_latency lshr = 7
get_latency ashr = 7
get_latency and = 1
get_latency or = 1
get_latency xor = 1
get_latency extract_element = 0
get_latency insert_element = 0
get_latency shuffle_vector = 0
get_latency extract_value = 0
get_latency insert_value = 0
get_latency alloca = 2
get_latency load = 2
get_latency store = 2
get_latency fence = 0
get_latency atomic_cmp_xchg = 0
get_latency atomic_rmw = 0
get_latency get_element_ptr = 1
get_latency trunc = 1
get_latency zext = 1
get_latency sext = 1
get_latency fp_trunc = 4
get_latency fp_ext = 4
get_latency fp_to_ui = 4
get_latency fp_to_si = 4
get_latency ui_to_fp = 4
get_latency si_to_fp = 4
get_latency ptr_to_int = 2
get_latency int_to_ptr = 2
get_latency bit_cast = 1
get_latency icmp = 1
get_latency fcmp = 1
get_latency phi = 1
get_latency select = 0
get_latency call = 50
get_latency va_arg = 0
get_latency landing_pad = 0
get_latency other = 1

-- No instruction costs more than a call.
pub get_latency-le : (o : Opcode) → get_latency o ≤ 50
unfolding get_latency
get_latency-le ret = omega arith
get_latency-le _ = omega arith
