-- ===== src/Split/Liveness/Exact.antt =====
-- Which values `getLiveinfo` (DSWP_4.cpp) lists, by counting.
use dswp_plus.Base.{
  ℕ, ◌≡◌, refl, ap, ◌+◌, ◌≤◌, ◌<◌, Bool, true, false, not, ◌&&◌, ◌||◌, some, List, [], ◌∷◌, ◌++◌,
  ◌==◌, if◌then◌else◌, count, count-snoc, arith, ltb, Bool-cases, inl, inr, eq-of-==,
}
use dswp_plus.Split.Liveness.{
  Use, by_inst, by_other, Values, LiveInfo, find, add_liveout, define_all, add_livein, livein_all,
  get_liveinfo,
}

find-count : (x : ℕ) (l : List ℕ) → find x l ≡ ltb 0 (count x l)
unfolding find
find-count x [] = refl
find-count x (y ∷ l) = ground (arith, find-count x l)

module _ (v : Values) where
  -- Every use is by an instruction.
  abbrev pub OnlyInsts : List Use → Type 0
  OnlyInsts [] = Unit
  OnlyInsts (by_inst u ∷ us) = OnlyInsts us
  OnlyInsts (by_other ∷ us) = ⊥

  -- Some use is by an instruction outside the loop.
  abbrev pub used_outside : List Use → Bool
  used_outside [] = false
  used_outside (by_inst u ∷ us) = if v.contains u then used_outside us else true
  used_outside (by_other ∷ us) = used_outside us

  -- Some instruction of the list has `x` as an operand.
  abbrev pub is_operand : ℕ → List ℕ → Bool
  is_operand x [] = false
  is_operand x (i ∷ is) = if ltb 0 (count x (v.operands i)) then true else is_operand x is

  add_liveout_lem :
      (inst : ℕ) (already : Bool) (us : List Use) (out : List ℕ)
      → OnlyInsts us
      → (out' : List ℕ) × (add_liveout v inst already us out ≡ some out')
        × ((x : ℕ)
            → count x out'
              ≡ count x out + (if x == inst && (not already && used_outside us) then 1 else 0))
  unfolding add_liveout
  add_liveout_lem inst already [] out h = (out, refl, λ x. ground arith)
  add_liveout_lem inst already (by_other ∷ us) out h = elim h [ ]
  add_liveout_lem inst already (by_inst u ∷ us) out h =
      elim (Bool-cases (not already && not (v.contains u))) [
        | inl e ↦
            let (out', eq, c) = add_liveout_lem inst true us (out ++ (inst ∷ [])) h in
            (out', rw e eq, λ x. ground (arith, c x, e, count-snoc x inst out))
        | inr e ↦
            let (out', eq, c) = add_liveout_lem inst already us out h in
            (out', rw e eq, λ x. ground (arith, c x, e))
      ]

  define_all_lem :
      (is : List ℕ) (l : LiveInfo)
      → ((x : ℕ) → 0 < count x is → OnlyInsts (v.uses x))
      → (l' : LiveInfo) × (define_all v is l ≡ some l')
        × (l'.livein ≡ l.livein)
        × ((x : ℕ) → count x l'.defin ≡ count x l.defin + (if v.is_void x then 0 else count x is))
        × ((x : ℕ)
            → count x l'.liveout
              ≡ count x l.liveout + (if used_outside (v.uses x) then count x is else 0))
  unfolding define_all
  define_all_lem [] l h = (l, refl, refl, λ x. ground arith, λ x. ground arith)
  define_all_lem (i ∷ is) l h =
      let (out, eq, c) = add_liveout_lem i false (v.uses i) l.liveout (h i (ground arith)) in
      let next = record l {
        defin = if v.is_void i then l.defin else l.defin ++ (i ∷ []);
        liveout = out;
      } in
      let (l', eq', same, d, o) = define_all_lem is next (λ x n. h x (omega arith)) in
      (
        l',
        rw eq eq',
        same,
        λ x. elim (Bool-cases (x == i)) [
          | inl e ↦ let e' = eq-of-== x i e in ground (arith, e', d x, count-snoc x i l.defin)
          | inr e ↦ ground (arith, d x, count-snoc x i l.defin)
        ],
        λ x. elim (Bool-cases (x == i)) [
          | inl e ↦ let e' = eq-of-== x i e in ground (arith, e', o x, c x)
          | inr e ↦ ground (arith, o x, c x)
        ],
      )

  -- Whether `x` is taken in, given that it stood in the list before or is found now.
  abbrev live : List ℕ → ℕ → Bool → Bool → Bool
  live defin x before now = before || (v.is_variable x && not (find x defin) && now)

  add_livein_lem :
      (defin ops livein : List ℕ) (x : ℕ)
      → count x livein ≤ 1
      → count x (add_livein v defin ops livein)
        ≡ (if live defin x (ltb 0 (count x livein)) (ltb 0 (count x ops)) then 1 else 0)
  unfolding add_livein
  add_livein_lem defin [] livein x h = ground arith
  add_livein_lem defin (op ∷ ops) livein x h =
      let now = v.is_variable op && not (find op defin) && not (find op livein) in
      let next = if now then livein ++ (op ∷ []) else livein in
      let grown : count x next ≡ count x livein + (if now && x == op then 1 else 0) =
        ground (arith, count-snoc x op livein) in
      elim (Bool-cases (x == op)) [
        | inl e ↦
            let e' = eq-of-== x op e in
            ground (arith, e', grown, find-count x livein, add_livein_lem defin ops next x)
        | inr e ↦ ground (arith, grown, add_livein_lem defin ops next x)
      ]

  livein_all_lem :
      (defin is livein : List ℕ) (x : ℕ)
      → count x livein ≤ 1
      → count x (livein_all v defin is livein)
        ≡ (if live defin x (ltb 0 (count x livein)) (is_operand x is) then 1 else 0)
  unfolding livein_all
  livein_all_lem defin [] livein x h = ground arith
  livein_all_lem defin (i ∷ is) livein x h = ground (
    arith,
    add_livein_lem defin (v.operands i) livein x h,
    livein_all_lem defin is (add_livein v defin (v.operands i) livein) x,
  )

  -- If every use of the loop's instructions is by an instruction, `getLiveinfo` returns. `defin` has
  -- the instructions of the loop whose type is not void, `liveout` those with a use outside the loop,
  -- each as often as the loop has it; `livein` has, once each, the instructions and arguments that
  -- are operands in the loop and not in `defin`, and nothing else.
  pub get_liveinfo-exact :
      (insts : List ℕ)
      → ((x : ℕ) → 0 < count x insts → OnlyInsts (v.uses x))
      → (l : LiveInfo) × (get_liveinfo v insts ≡ some l)
        × ((x : ℕ) → count x l.defin ≡ (if v.is_void x then 0 else count x insts))
        × ((x : ℕ) → count x l.liveout ≡ (if used_outside (v.uses x) then count x insts else 0))
        × ((x : ℕ)
            → count x l.livein
              ≡ (if v.is_variable x && (count x l.defin == 0 && is_operand x insts) then 1 else 0))
  unfolding get_liveinfo
  get_liveinfo-exact insts h =
      let (l, eq, same, d, o) =
        define_all_lem insts (record { defin = []; livein = []; liveout = [] }) h in
      let none_yet = λ (x : ℕ). ap (count x) same in
      (
        record l { livein = livein_all v l.defin insts l.livein },
        rw eq refl,
        λ x. ground (arith, d x),
        λ x. ground (arith, o x),
        λ x.
            ground
              (arith, livein_all_lem l.defin insts l.livein x, none_yet x, find-count x l.defin),
      )
