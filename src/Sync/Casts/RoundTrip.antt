-- ===== src/Sync/Casts/RoundTrip.antt =====
-- The casts of `insertProduce` and `insertConsume` (DSWP_5.cpp) after each other.
use dswp_plus.Base.{ℕ, ◌≡◌, refl, subst, ◌^◌, ◌%◌, ◌≤◌, ◌<◌, some, arith}
use native.Mathlib.Nat.{mod-eq_of_lt, pow-le-pow_right}
use dswp_plus.Sync.Casts.{
  Ty, integer, float, floating, pointer, other_type, Cast, zext, bit_cast, ptr_to_int, trunc,
  int_to_ptr, produce_with, consume_with,
}

-- The value of a cast from one type to another on a bit pattern, as LLVM documents it: `zext` keeps
-- the value and wants a wider type; `trunc` drops the high bits and wants a narrower type; `bitcast`
-- keeps the bits and wants the same size; between a pointer and a wider or equally wide integer the
-- value is extended by zeros and cut.
pub record Casts (pointer_bits : ℕ) : Type 0 where
  pub run : Cast → Ty → Ty → ℕ → ℕ
  pub run_zext : (w k x : ℕ) → w < k → x < 2 ^ w → run zext (integer w) (integer k) x ≡ x
  pub run_trunc : (w k x : ℕ) → w < k → x < 2 ^ k → run trunc (integer k) (integer w) x ≡ x % 2 ^ w
  pub run_from_floating : (w x : ℕ) → x < 2 ^ w → run bit_cast (floating w) (integer w) x ≡ x
  pub run_to_floating : (w x : ℕ) → x < 2 ^ w → run bit_cast (integer w) (floating w) x ≡ x
  pub run_ptr_to_int :
      (k x : ℕ) → pointer_bits ≤ k → x < 2 ^ pointer_bits → run ptr_to_int pointer (integer k) x ≡ x
  pub run_int_to_ptr :
      (k x : ℕ)
      → pointer_bits ≤ k
      → x < 2 ^ k
      → run int_to_ptr (integer k) pointer x ≡ x % 2 ^ pointer_bits

-- `eleType`
abbrev pub ele_type : Ty
ele_type = integer 64

-- The value is one of the type, and LLVM has the casts between the type and `eleType`.
abbrev pub IsValue : ℕ → Ty → ℕ → Type 0
IsValue pb (integer w) x = (w < 64) × (x < 2 ^ w)
IsValue pb float x = x < 2 ^ 32
IsValue pb (floating w) x = (w ≡ 64) × (x < 2 ^ w)
IsValue pb pointer x = (pb ≤ 64) × (x < 2 ^ pb)
IsValue pb other_type x = Unit

below : (w k x : ℕ) → w ≤ k → x < 2 ^ w → x < 2 ^ k
below w k x h b =
    let wider : 2 ^ w ≤ 2 ^ k = pow-le-pow_right (omega arith) h in omega (arith, wider, b)

-- Let `insertConsume` have a cast for the type of a register dependence, and let the value be one of
-- that type: an integer of less than 64 bits, a floating-point type of 64 bits, or a pointer of at
-- most 64. Then `insertProduce` has a cast for it too, and the two after each other give the value
-- back, for casts that behave as LLVM documents them.
pub produce_consume :
    {pb : ℕ} (casts : Casts pb) (ty : Ty) (x : ℕ) (c : Cast)
    → consume_with ty ≡ some c
    → IsValue pb ty x
    → (p : Cast) × (produce_with ty ≡ some p)
      × (casts.run c ele_type ty (casts.run p ty ele_type x) ≡ x)
unfolding consume_with produce_with
produce_consume casts (integer w) x c e (h, b) =
    let same : c ≡ trunc = cc in
    (
      zext,
      refl,
      rw (same, casts.run_zext w 64 x h b, casts.run_trunc w 64 x h (below w 64 x (omega arith) b))
          (mod-eq_of_lt b),
    )
produce_consume casts float x c e v = absurd (cc)
produce_consume casts (floating w) x c e (h, b) =
    let same : c ≡ bit_cast = cc in
    let b64 = subst (λ k. x < 2 ^ k) h b in
    (
      bit_cast,
      refl,
      rw (same, h, casts.run_from_floating 64 x b64) (casts.run_to_floating 64 x b64),
    )
produce_consume casts pointer x c e (h, b) =
    let same : c ≡ int_to_ptr = cc in
    (
      ptr_to_int,
      refl,
      rw (same, casts.run_ptr_to_int 64 x h b, casts.run_int_to_ptr 64 x h (below _ 64 x h b))
          (mod-eq_of_lt b),
    )
produce_consume casts other_type x c e v = absurd (cc)
