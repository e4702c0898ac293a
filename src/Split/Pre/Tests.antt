-- ===== src/Split/Pre/Tests.antt =====
-- A loop that takes in 7 and 8 and gives out 1 and 3, whose threads store their results.
use mathlib.Core.List.{Memᴰ}
use mathlib.Core.List.Memᴰ
use dswp_plus.Base.{
  ℕ, ◌≡◌, refl, sym, ◌≢◌, ◌+◌, ◌<◌, ◌*◌, ap, Bool-cases, inl, inr, eq-of-==, subst, ap₂, ◌∙◌,
  Option, none, some, [], ◌∷◌, count, ◌==◌, if◌then◌else◌, update, ℤ, pos, arith,
}
use dswp_plus.Base.Result.{ok}
use dswp_plus.Split.Pre.{replace_block, map_outs, field_types}
use dswp_plus.Split.Pre.Struct.{Field, arg, out, Memory, run_stores}
use dswp_plus.Split.Pre.Passed.{
  run_outs, access, store_outs-from, store_outs-all, replace_block-passed, AreDone, map_outs-passed,
}
use dswp_plus.Split.Pre.Delegates.{run_calls, IsJoined, replace_block-IsJoined}
use dswp_plus.Runtime.Channels.{returns}
use dswp_plus.Runtime.Threads.{Threads}
use dswp_plus.Split.Threads.{load_args, store_outs}

-- The number of a field: the arguments have the even ones.
abbrev code : Field → ℕ
code (arg j) = 2 * j
code (out j) = 2 * j + 1

code_inj : (f g : Field) → code f ≡ code g → f ≡ g
code_inj (arg j) (arg k) e = ap arg (omega (arith, e))
code_inj (arg j) (out k) e = absurd (omega (arith, e))
code_inj (out j) (arg k) e = absurd (omega (arith, e))
code_inj (out j) (out k) e = ap out (omega (arith, e))

same_field : (k v : ℕ) (s : ℕ → ℕ) → update s k v k ≡ v
same_field k v s = ground arith

other_field : (f g : Field) (v : ℕ) (s : ℕ → ℕ) → f ≢ g → update s (code g) v (code f) ≡ s (code f)
other_field f g v s n = elim (Bool-cases (code g == code f)) [
  | inl e ↦ absurd (n (sym (code_inj g f (eq-of-== (code g) (code f) e))))
  | inr e ↦ rw e refl
]

abbrev memory : Memory
memory = record {
  State = ℕ → ℕ;
  load = λ f s. s (code f);
  store = λ f v s. update s (code f) v;
  load_same = λ f v s. same_field (code f) v s;
  load_other = other_field;
}

replace_block-passed_example :
    (m : ℕ → Option ℕ) × (load_args
        (λ x. 64)
        (λ j. j + 50)
        (field_types (λ x. 64) 8 (7 ∷ 8 ∷ []))
        0
        (7 ∷ 8 ∷ [])
        (λ _. none)
      ≡ ok m)
    × ((x : ℕ)
        → 0 < count x (7 ∷ 8 ∷ [])
        → (k : ℕ) × (m x ≡ some (k + 50))
          × (memory.load (arg k) (
                run_outs memory ((0, 5) ∷ []) (
                  run_stores memory
                    (λ x. x * x)
                    (replace_block (7 ∷ 8 ∷ []) (1 ∷ 3 ∷ []))
                    (λ _. 0)))
              ≡ x * x))
    × ((x : ℕ) → count x (7 ∷ 8 ∷ []) ≡ 0 → m x ≡ none)
replace_block-passed_example =
    replace_block-passed memory (λ x. x * x) (λ x. 64) (λ j. j + 50) 8 (7 ∷ 8 ∷ []) (1 ∷ 3 ∷ [])
      (λ _. none) ((0, 5) ∷ []) (λ _. 0)

-- The first thread computes 1, the second 3; the second is done first.
abbrev owner : ℕ → ℤ
owner x = if x == 3 then pos 1 else pos 0

abbrev maps : ℕ → ℕ → Option ℕ
maps i x = some (x + 20)

done : AreDone owner maps (λ n. n * n) (1 ∷ 3 ∷ []) ((1, 529) ∷ (0, 441) ∷ [])
done = record {
  from = λ j v m. elim (Memᴰ.cases_cons m) [
    | inl e ↦ (
      1,
      23,
      subst (λ k. Memᴰ (access k (some 23)) (store_outs owner 1 (maps 1) 0 (1 ∷ 3 ∷ [])))
          (sym (ap (λ (z : ℕ × ℕ). z.0) e))
          (store_outs-all owner 1 (maps 1) 0 (1 ∷ 3 ∷ []) 1 3 (inr (inl (refl, refl))) refl),
      ap (λ (z : ℕ × ℕ). z.1) e,
    )
    | inr m' ↦ elim (Memᴰ.cases_cons m') [
      | inl e ↦ (
        0,
        21,
        subst (λ k. Memᴰ (access k (some 21)) (store_outs owner 0 (maps 0) 0 (1 ∷ 3 ∷ [])))
            (sym (ap (λ (z : ℕ × ℕ). z.0) e))
            (store_outs-all owner 0 (maps 0) 0 (1 ∷ 3 ∷ []) 0 1 (inl (refl, refl)) refl),
        ap (λ (z : ℕ × ℕ). z.1) e,
      )
      | inr m'' ↦ absurd (Memᴰ.not-nil m'')
    ]
  ];
  all = λ i j n m.
      let (x, h, t, e) = store_outs-from owner i (maps i) 0 (1 ∷ 3 ∷ []) (access j (some n)) m in
      let num : n ≡ x + 20 = cc in
      elim h [
        | inl (f, g) ↦ Memᴰ.tail (
            Memᴰ.head
              (ap₂ (λ (a : ℕ) (b : ℕ). (a, b)) f (ap (λ z. z * z) (num ∙ ap (λ z. z + 20) g))))
        | inr (inl (f, g)) ↦
            Memᴰ.head
              (ap₂ (λ (a : ℕ) (b : ℕ). (a, b)) f (ap (λ z. z * z) (num ∙ ap (λ z. z + 20) g)))
        | inr (inr none_left) ↦ absurd none_left
      ];
}

map_outs-passed_example :
    (k : ℕ) × (map_outs (λ j. j + 60) 0 (1 ∷ 3 ∷ []) (λ _. none) 3 ≡ some (k + 60))
    × (memory.load (out k) (run_outs memory ((1, 529) ∷ (0, 441) ∷ []) (λ _. 0)) ≡ 529)
map_outs-passed_example =
    map_outs-passed memory owner maps (λ n. n * n) (λ j. j + 60) (1 ∷ 3 ∷ [])
      ((1, 529) ∷ (0, 441) ∷ []) (λ _. 0) 3 1 23 done (omega arith) refl refl

-- Two handles are left from an earlier loop.
abbrev threads : Threads
threads = record { handles = 3 ∷ 4 ∷ []; started = []; created = 3 ∷ 4 ∷ []; joined = 3 ∷ 4 ∷ [] }

replace_block-IsJoined_example :
    (t' : Threads) × (run_calls
        (λ n. n + 3)
        (λ i. i + 70)
        99
        (replace_block (7 ∷ 8 ∷ []) (1 ∷ 3 ∷ []))
        threads
      ≡ returns t')
    × IsJoined (λ n. n + 3) (λ i. i + 70) 99 threads t'
replace_block-IsJoined_example =
    replace_block-IsJoined (λ n. n + 3) (λ i. i + 70) 99 (7 ∷ 8 ∷ []) (1 ∷ 3 ∷ []) threads refl
      (λ n h. omega (arith, h))
