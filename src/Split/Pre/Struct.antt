-- ===== src/Split/Pre/Struct.antt =====
-- The values in the argument struct, which `preLoopSplit` and `loopSplit` (DSWP_4.cpp) store and load.
use dswp_plus.Base.{
  ℕ, suc, ◌≡◌, ◌≢◌, refl, sym, ap, ◌∙◌, ◌+◌, ◌≤◌, ◌<◌, true, Option, some, List, [], ◌∷◌, ◌++◌,
  ◌==◌, update, count, get_or, arith, Bool-cases, inl, inr, ◌⊎◌, eq-of-==,
}
use dswp_plus.Base.Result.{ok}
use dswp_plus.Split.Pre.{
  Op, alloca, store_arg, call_init, delegate, call_join, load_out, jump_exit, store_args, delegates,
  load_outs, replace_block, map_outs, field_types,
}
use dswp_plus.Split.Threads.{load_args}

-- A field of the argument struct, or one of the struct of results in it.
pub data Field : Type 0 where
  arg : ℕ → Field
  out : ℕ → Field

-- The memory of the struct: a load gives what the last store to the field has put there, and different
-- fields do not overlap.
pub record Memory : Type 1 where
  pub State : Type 0
  pub load : Field → State → ℕ
  pub store : Field → ℕ → State → State
  pub load_same : (f : Field) (v : ℕ) (s : State) → load f (store f v s) ≡ v
  pub load_other : (f g : Field) (v : ℕ) (s : State) → f ≢ g → load f (store g v s) ≡ load f s

arg-ne : (j k : ℕ) → j ≢ k → arg j ≢ arg k
arg-ne j k h e = h (cc)

pub out-ne : (j k : ℕ) → j ≢ k → out j ≢ out k
out-ne j k h e = h (cc)

-- The list, from the field `j` on, has `x` at the field `k`.
abbrev pub Holds : ℕ → List ℕ → ℕ → ℕ → Type 0
Holds j [] k x = ⊥
Holds j (y ∷ ys) k x = ((k ≡ j) × (x ≡ y)) ⊎ Holds (j + 1) ys k x

Holds-above : (j : ℕ) (xs : List ℕ) (k x : ℕ) → Holds j xs k x → j ≤ k
Holds-above j [] k x h = absurd h
Holds-above j (y ∷ ys) k x (inl (e, _)) = omega (arith, e)
Holds-above j (y ∷ ys) k x (inr h) = omega (arith, Holds-above (j + 1) ys k x h)

pub Holds-count : (j : ℕ) (xs : List ℕ) (k x : ℕ) → Holds j xs k x → 0 < count x xs
Holds-count j [] k x h = absurd h
Holds-count j (y ∷ ys) k x (inl (_, e)) = ground (arith, e)
Holds-count j (y ∷ ys) k x (inr h) = omega (arith, Holds-count (j + 1) ys k x h)

pub Holds-unique : (j : ℕ) (xs : List ℕ) (k x y : ℕ) → Holds j xs k x → Holds j xs k y → x ≡ y
Holds-unique j [] k x y h h' = absurd h
Holds-unique j (z ∷ zs) k x y (inl (_, e)) (inl (_, e')) = e ∙ sym e'
Holds-unique j (z ∷ zs) k x y (inl (e, _)) (inr h') =
    absurd (omega (arith, e, Holds-above (j + 1) zs k y h'))
Holds-unique j (z ∷ zs) k x y (inr h) (inl (e, _)) =
    absurd (omega (arith, e, Holds-above (j + 1) zs k x h))
Holds-unique j (z ∷ zs) k x y (inr h) (inr h') = Holds-unique (j + 1) zs k x y h h'

-- The entries for the variables of the list: each has the load of a field that holds it.
pub map_outs-Holds :
    (load : ℕ → ℕ) (j : ℕ) (xs : List ℕ) (m : ℕ → Option ℕ) (x : ℕ)
    → ((k : ℕ) × (map_outs load j xs m x ≡ some (load k)) × Holds j xs k x)
      ⊎ ((count x xs ≡ 0) × (map_outs load j xs m x ≡ m x))
unfolding map_outs
map_outs-Holds load j [] m x = inr (refl, refl)
map_outs-Holds load j (y ∷ ys) m x =
    elim (map_outs-Holds load (j + 1) ys (update m y (some (load j))) x) [
      | inl (k, e, h) ↦ inl (k, e, inr h)
      | inr (c, e) ↦ elim (Bool-cases (y == x)) [
        | inl same ↦
            let same' = eq-of-== y x same in
            inl (j, e ∙ ground (arith, same'), inl (refl, sym same'))
        | inr other ↦ inr (ground (arith, c), e ∙ ground (arith, other))
      ]
    ]

-- `loopSplit` loads the fields in the types that `preLoopSplit` has given them, and makes the same
-- entries.
pub load_args-map_outs :
    (type_of loaded : ℕ → ℕ) (o : ℕ) (types : List ℕ) (j : ℕ) (xs : List ℕ) (m : ℕ → Option ℕ)
    → ((k : ℕ) → get_or types (j + k) 0 ≡ get_or (field_types type_of o xs) k 0)
    → load_args type_of loaded types j xs m ≡ ok (map_outs loaded j xs m)
unfolding load_args map_outs field_types
load_args-map_outs type_of loaded o types j [] m h = refl
load_args-map_outs type_of loaded o types j (x ∷ xs) m h =
    let here : get_or types j 0 ≡ type_of x = ap (λ z. get_or types z 0) (omega arith) ∙ h 0 in
    let test : (get_or types j 0 == type_of x) ≡ true = ground (arith, here) in
    rw test (
      load_args-map_outs type_of loaded o types (j + 1) xs (update m x (some (loaded j)))
        (λ k. ap (λ z. get_or types z 0) (omega arith) ∙ h (suc k)))

module _ (mem : Memory) (env : ℕ → ℕ) where
  -- The stores of the new block, for the values that the variables have there.
  abbrev pub run_stores : List Op → mem.State → mem.State
  run_stores [] s = s
  run_stores (store_arg j x ∷ ops) s = run_stores ops (mem.store (arg j) (env x) s)
  run_stores (alloca ∷ ops) s = run_stores ops s
  run_stores (call_init ∷ ops) s = run_stores ops s
  run_stores (delegate i ∷ ops) s = run_stores ops s
  run_stores (call_join ∷ ops) s = run_stores ops s
  run_stores (load_out j ∷ ops) s = run_stores ops s
  run_stores (jump_exit ∷ ops) s = run_stores ops s

  -- A field below those of the list keeps its value.
  run_stores-below :
      (k j : ℕ) (xs : List ℕ) (s : mem.State)
      → k < j
      → mem.load (arg k) (run_stores (store_args j xs) s) ≡ mem.load (arg k) s
  unfolding store_args
  run_stores-below k j [] s h = refl
  run_stores-below k j (x ∷ xs) s h =
      run_stores-below k (j + 1) xs (mem.store (arg j) (env x) s) (omega arith)
      ∙ mem.load_other (arg k) (arg j) (env x) s (arg-ne k j (λ e. omega (arith, e)))

  pub run_stores-Holds :
      (j : ℕ) (xs : List ℕ) (k x : ℕ) (s : mem.State)
      → Holds j xs k x
      → mem.load (arg k) (run_stores (store_args j xs) s) ≡ env x
  unfolding store_args
  run_stores-Holds j [] k x s h = absurd h
  run_stores-Holds j (y ∷ ys) k x s (inl (e, e')) =
      run_stores-below k (j + 1) ys (mem.store (arg j) (env y) s) (omega (arith, e))
      ∙ ap (λ z. mem.load (arg z) (mem.store (arg j) (env y) s)) e
      ∙ mem.load_same (arg j) (env y) s
      ∙ ap env (sym e')
  run_stores-Holds j (y ∷ ys) k x s (inr h) =
      run_stores-Holds (j + 1) ys k x (mem.store (arg j) (env y) s) h

  run_stores-append :
      (ops ops' : List Op) (s : mem.State)
      → run_stores (ops ++ ops') s ≡ run_stores ops' (run_stores ops s)
  run_stores-append [] ops' s = refl
  run_stores-append (store_arg j x ∷ ops) ops' s =
      run_stores-append ops ops' (mem.store (arg j) (env x) s)
  run_stores-append (alloca ∷ ops) ops' s = run_stores-append ops ops' s
  run_stores-append (call_init ∷ ops) ops' s = run_stores-append ops ops' s
  run_stores-append (delegate i ∷ ops) ops' s = run_stores-append ops ops' s
  run_stores-append (call_join ∷ ops) ops' s = run_stores-append ops ops' s
  run_stores-append (load_out j ∷ ops) ops' s = run_stores-append ops ops' s
  run_stores-append (jump_exit ∷ ops) ops' s = run_stores-append ops ops' s

  run_stores-load_outs : (j : ℕ) (xs : List ℕ) (s : mem.State) → run_stores (load_outs j xs) s ≡ s
  unfolding load_outs
  run_stores-load_outs j [] s = refl
  run_stores-load_outs j (x ∷ xs) s = run_stores-load_outs (j + 1) xs s

  pub run_stores-replace_block :
      (livein liveout : List ℕ) (s : mem.State)
      → run_stores (replace_block livein liveout) s ≡ run_stores (store_args 0 livein) s
  unfolding replace_block delegates
  run_stores-replace_block livein liveout s =
      run_stores-append (store_args 0 livein) _ s
      ∙ run_stores-append (load_outs 0 liveout) (jump_exit ∷ []) _
      ∙ run_stores-load_outs 0 liveout _
