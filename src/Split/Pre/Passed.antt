-- ===== src/Split/Pre/Passed.antt =====
-- What the threads get from the new block, and what it gets back from them (DSWP_4.cpp).
use mathlib.Core.List.{Memᴰ}
use mathlib.Core.List.Memᴰ
use dswp_plus.Base.{
  ℕ, ◌≡◌, refl, sym, ap, ap₂, subst, ◌∙◌, ◌+◌, ◌<◌, true, Option, none, some, List, [], ◌∷◌, ◌==◌,
  get_or, count, arith, Bool-cases, inl, inr, ◌⊎◌, eq-of-==, ne-of-==, ℤ, pos, ◌==ℤ◌,
}
use dswp_plus.Base.Result.{ok}
use dswp_plus.Split.Pre.{replace_block, map_outs, field_types}
use dswp_plus.Split.Pre.Struct.{
  arg, out, out-ne, Memory, Holds, Holds-count, Holds-unique, map_outs-Holds, load_args-map_outs,
  run_stores, run_stores-Holds, run_stores-replace_block,
}
use dswp_plus.Split.Threads.{Access, load_args, store_outs}

module _ (mem : Memory) where
  -- Stores of results, each with its field and its value.
  abbrev pub run_outs : List (ℕ × ℕ) → mem.State → mem.State
  run_outs [] s = s
  run_outs (w ∷ ws) s = run_outs ws (mem.store (out w.0) w.1 s)

  run_outs-arg :
      (k : ℕ) (ws : List (ℕ × ℕ)) (s : mem.State)
      → mem.load (arg k) (run_outs ws s) ≡ mem.load (arg k) s
  run_outs-arg k [] s = refl
  run_outs-arg k (w ∷ ws) s =
      run_outs-arg k ws (mem.store (out w.0) w.1 s)
      ∙ mem.load_other (arg k) (out w.0) w.1 s (λ e. cc e)

  -- The last store to a field counts; if all the stores to it have one value, any.
  run_outs-all :
      (j v : ℕ) (ws : List (ℕ × ℕ)) (s : mem.State)
      → ((u : ℕ) → Memᴰ (j, u) ws → u ≡ v)
      → (Memᴰ (j, v) ws) ⊎ (mem.load (out j) s ≡ v)
      → mem.load (out j) (run_outs ws s) ≡ v
  run_outs-all j v [] s h (inl m) = absurd (Memᴰ.not-nil m)
  run_outs-all j v [] s h (inr e) = e
  run_outs-all j v ((k, u) ∷ ws) s h start =
      run_outs-all j v ws (mem.store (out k) u s) (λ w m. h w (Memᴰ.tail m))
        (elim (Bool-cases (j == k)) [
          | inl same ↦
              let e = eq-of-== j k same in
              inr (
                ap (λ z. mem.load (out z) (mem.store (out k) u s)) e
                ∙ mem.load_same (out k) u s
                ∙ h u (Memᴰ.head (ap (λ z. (z, u)) e)))
          | inr other ↦ elim start [
            | inl m ↦ elim (Memᴰ.cases_cons m) [
              | inl e ↦ absurd (ne-of-== j k other (ap (λ (z : ℕ × ℕ). z.0) e))
              | inr m' ↦ inl m'
            ]
            | inr e ↦ inr (mem.load_other (out j) (out k) u s (out-ne j k (ne-of-== j k other)) ∙ e)
          ]
        ])

  -- Let a thread load its arguments behind the stores of the new block and any stores of results.
  -- The loads have the types for which they are checked, and every variable that the loop takes in is
  -- replaced in the thread by a load of a field in which the new block has put the variable's value.
  pub replace_block-passed :
      (env type_of loaded : ℕ → ℕ) (o : ℕ) (livein liveout : List ℕ) (m : ℕ → Option ℕ)
      (ws : List (ℕ × ℕ)) (s : mem.State)
      → (m' : ℕ → Option ℕ) × (load_args type_of loaded (field_types type_of o livein) 0 livein m
          ≡ ok m')
        × ((x : ℕ)
            → 0 < count x livein
            → (k : ℕ) × (m' x ≡ some (loaded k))
              × (mem.load
                    (arg k)
                    (run_outs ws (run_stores mem env (replace_block livein liveout) s))
                  ≡ env x))
        × ((x : ℕ) → count x livein ≡ 0 → m' x ≡ m x)
  replace_block-passed env type_of loaded o livein liveout m ws s = (
    map_outs loaded 0 livein m,
    load_args-map_outs type_of loaded o (field_types type_of o livein) 0 livein m
        (λ k. ap (λ z. get_or (field_types type_of o livein) z 0) (omega arith)),
    λ x c. elim (map_outs-Holds loaded 0 livein m x) [
      | inl (k, e, h) ↦ (
        k,
        e,
        run_outs-arg k ws _
            ∙ ap (mem.load (arg k)) (run_stores-replace_block mem env livein liveout s)
            ∙ run_stores-Holds mem env 0 livein k x s h,
      )
      | inr (c', e) ↦ absurd (omega (arith, c'))
    ],
    λ x c. elim (map_outs-Holds loaded 0 livein m x) [
      | inl (k, e, h) ↦ absurd (omega (arith, c, Holds-count 0 livein k x h))
      | inr (c', e) ↦ e
    ],
  )

abbrev pub access : ℕ → Option ℕ → Access
access f v = record { field = f; value = v }

-- The stores of a thread are those of the variables that it computes, each to a field that holds it.
pub store_outs-from :
    (thread : ℕ → ℤ) (i : ℕ) (m : ℕ → Option ℕ) (j : ℕ) (xs : List ℕ) (a : Access)
    → Memᴰ a (store_outs thread i m j xs)
    → (x : ℕ) × Holds j xs a.field x × ((thread x ==ℤ pos i) ≡ true) × (a.value ≡ m x)
unfolding store_outs
store_outs-from thread i m j [] a h = absurd (Memᴰ.not-nil h)
store_outs-from thread i m j (x ∷ xs) a h = elim (Bool-cases (thread x ==ℤ pos i)) [
  | inl t ↦ elim (Memᴰ.cases_cons (rw t at h)) [
    | inl e ↦ (x, inl (ap (λ (b : Access). b.field) e, refl), t, ap (λ (b : Access). b.value) e)
    | inr h' ↦ let (y, q, t', e) = store_outs-from thread i m (j + 1) xs a h' in (y, inr q, t', e)
  ]
  | inr t ↦
      let (y, q, t', e) = store_outs-from thread i m (j + 1) xs a (rw t at h) in (y, inr q, t', e)
]

pub store_outs-all :
    (thread : ℕ → ℤ) (i : ℕ) (m : ℕ → Option ℕ) (j : ℕ) (xs : List ℕ) (k x : ℕ)
    → Holds j xs k x
    → (thread x ==ℤ pos i) ≡ true
    → Memᴰ (record { field = k; value = m x }) (store_outs thread i m j xs)
unfolding store_outs
store_outs-all thread i m j [] k x h t = absurd h
store_outs-all thread i m j (y ∷ ys) k x (inl (e, e')) t =
    let t' : (thread y ==ℤ pos i) ≡ true = ap (λ z. thread z ==ℤ pos i) (sym e') ∙ t in
    rw t' (Memᴰ.head (ap₂ (λ (f : ℕ) (v : Option ℕ). access f v) e (ap m e')))
store_outs-all thread i m j (y ∷ ys) k x (inr h) t =
    let rest = store_outs-all thread i m (j + 1) ys k x h t in
    elim (Bool-cases (thread y ==ℤ pos i)) [ inl t' ↦ rw t' (Memᴰ.tail rest) | inr t' ↦ rw t' rest ]

-- The stores that all the threads have made, in any order: each is a store of one thread, of the value
-- of the instruction that it stores, and each store of a thread is among them. `maps` is `instMap` and
-- `worth` gives the value of a new instruction.
pub record AreDone (thread : ℕ → ℤ) (maps : ℕ → ℕ → Option ℕ) (worth : ℕ → ℕ) (liveout : List ℕ)
    (ws : List (ℕ × ℕ)) : Type 0 where
  pub from :
      (j v : ℕ)
      → Memᴰ (j, v) ws
      → (i n : ℕ) × Memᴰ
          (record { field = j; value = some n })
          (store_outs thread i (maps i) 0 liveout)
        × (v ≡ worth n)
  pub all :
      (i j n : ℕ)
      → Memᴰ (record { field = j; value = some n }) (store_outs thread i (maps i) 0 liveout)
      → Memᴰ (j, worth n) ws

-- All the stores to a field that holds `x` have one value.
outs_agree :
    (thread : ℕ → ℤ) (maps : ℕ → ℕ → Option ℕ) (worth : ℕ → ℕ) (liveout : List ℕ)
    (ws : List (ℕ × ℕ)) (x i n : ℕ)
    → AreDone thread maps worth liveout ws
    → thread x ≡ pos i
    → maps i x ≡ some n
    → (k : ℕ) → Holds 0 liveout k x
    → (u : ℕ) → Memᴰ (k, u) ws
    → u ≡ worth n
outs_agree thread maps worth liveout ws x i n d t e k h u m =
    let (i', n', st, ev) = d.from k u m in
    let (y, hy, ty, ey) = store_outs-from thread i' (maps i') 0 liveout (access k (some n')) st in
    let same : y ≡ x = Holds-unique 0 liveout k y x hy h in
    let tx : (pos i ==ℤ pos i') ≡ true =
      ap (λ z. z ==ℤ pos i') (sym t) ∙ ap (λ z. thread z ==ℤ pos i') (sym same) ∙ ty in
    let thr : i ≡ i' = eq-of-== i i' tx in
    let value : some n' ≡ some n = ey ∙ ap (maps i') same ∙ ap (λ z. maps z x) (sym thr) ∙ e in
    let num : n' ≡ n = cc in ev ∙ ap worth num

-- Let the stores of the threads' results be made, in any order. A variable that the loop gives out, and
-- that a thread computes by its copy, is replaced behind the loop by a load of a field which then has
-- the value of that copy.
pub map_outs-passed :
    (mem : Memory) (thread : ℕ → ℤ) (maps : ℕ → ℕ → Option ℕ) (worth load : ℕ → ℕ)
    (liveout : List ℕ) (ws : List (ℕ × ℕ)) (s : mem.State) (x i n : ℕ)
    → AreDone thread maps worth liveout ws
    → 0 < count x liveout
    → thread x ≡ pos i
    → maps i x ≡ some n
    → (k : ℕ) × (map_outs load 0 liveout (λ _. none) x ≡ some (load k))
      × (mem.load (out k) (run_outs mem ws s) ≡ worth n)
map_outs-passed mem thread maps worth load liveout ws s x i n d c t e =
    elim (map_outs-Holds load 0 liveout (λ _. none) x) [
      | inr (c', _) ↦ absurd (omega (arith, c'))
      | inl (k, eq, h) ↦
          let mine = store_outs-all thread i (maps i) 0 liveout k x h (ground (arith, t)) in
          (
            k,
            eq,
            run_outs-all mem k (worth n) ws s
                (λ u m. outs_agree thread maps worth liveout ws x i n d t e k h u m)
                (inl (
                  d.all i k n (
                    subst (λ v. Memᴰ (access k v) (store_outs thread i (maps i) 0 liveout)) e
                      mine))),
          )
    ]
