-- ===== src/Sync/Clean/Tidy.antt =====
-- The blocks behind `cleanup` (DSWP_5.cpp), described without its loops.
use mathlib.Core.List.{reverse, reverse_aux, map, append-nil}
use dswp_plus.Base.{
  ◌≡◌, refl, sym, ap, ap₂, ◌∙◌, Bool, true, false, not, Option, some, List, [], ◌∷◌, ◌++◌,
  if◌then◌else◌, Bool-cases, inl, inr,
}
use dswp_plus.Sync.Clean.{
  Cut, find_term, sink, move_produces, first_nonphi, raise, move_phis, each_block, clean_up,
}

module _ {A : Type 0} where
  -- The elements for which the test gives true, in order.
  abbrev pub only : (A → Bool) → List A → List A
  only p [] = []
  only p (x ∷ xs) = if p x then x ∷ only p xs else only p xs

  -- The test gives false for every element.
  abbrev pub Free : (A → Bool) → List A → Type 0
  Free p [] = Unit
  Free p (x ∷ xs) = (p x ≡ false) × Free p xs

  append_assoc : (xs ys zs : List A) → (xs ++ ys) ++ zs ≡ xs ++ (ys ++ zs)
  append_assoc [] ys zs = refl
  append_assoc (x ∷ xs) ys zs = ap (λ l. x ∷ l) (append_assoc xs ys zs)

  only-append : (p : A → Bool) (xs ys : List A) → only p (xs ++ ys) ≡ only p xs ++ only p ys
  only-append p [] ys = refl
  only-append p (x ∷ xs) ys = elim (Bool-cases (p x)) [
    | inl e ↦ rw (e, only-append p xs ys) refl
    | inr e ↦ rw (e, only-append p xs ys) refl
  ]

  Free-append : (p : A → Bool) (xs ys : List A) → Free p xs → Free p ys → Free p (xs ++ ys)
  Free-append p [] ys f g = g
  Free-append p (x ∷ xs) ys (e, f) g = (e, Free-append p xs ys f g)

  Free-reverse_aux :
      (p : A → Bool) (xs ys : List A) → Free p xs → Free p ys → Free p (reverse_aux xs ys)
  Free-reverse_aux p [] ys f g = g
  Free-reverse_aux p (x ∷ xs) ys (e, f) g = Free-reverse_aux p xs (x ∷ ys) f (e, g)

module _ {A : Type 0} (is_term is_phi : A → Bool) where
  abbrev pub block_of : Cut A → List A
  block_of c = c.before ++ (c.at ∷ c.after)

  -- Only `at` is a terminator, and it is no phi node.
  pub record IsBlock (c : Cut A) : Type 0 where
    pub term : is_term c.at ≡ true
    pub nonphi : is_phi c.at ≡ false
    pub before : Free is_term c.before
    pub after : Free is_term c.after

  -- The block without its terminator, what stood behind that from the last on.
  abbrev pub body : Cut A → List A
  body c = c.before ++ reverse c.after

  abbrev pub tidied : Cut A → List A
  tidied c = (only is_phi (body c) ++ only (λ x. not (is_phi x)) (body c)) ++ (c.at ∷ [])

  find_term_lem :
      (done xs rest : List A) (t : A)
      → is_term t ≡ true
      → Free is_term xs
      → find_term is_term is_phi done (xs ++ (t ∷ rest))
        ≡ some (record { before = done ++ xs; at = t; after = rest })
  unfolding find_term
  find_term_lem done [] rest t h f = rw (h, append-nil done) refl
  find_term_lem done (x ∷ xs) rest t h (e, f) = rw e (
      find_term_lem (done ++ (x ∷ [])) xs rest t h f
      ∙ ap (λ l. some (record { before = l; at = t; after = rest }))
          (append_assoc done (x ∷ []) xs))

  sink_lem :
      (before back : List A) (t : A)
      → Free is_term back
      → sink is_term is_phi before t back ≡ (before ++ back) ++ (t ∷ [])
  unfolding sink
  sink_lem before [] t f = ap (λ l. l ++ (t ∷ [])) (sym (append-nil before))
  sink_lem before (x ∷ back) t (e, f) = rw e (
      sink_lem (before ++ (x ∷ [])) back t f
      ∙ ap (λ l. l ++ (t ∷ [])) (append_assoc before (x ∷ []) back))

  pub move_produces_lem :
      (c : Cut A)
      → IsBlock c
      → move_produces is_term is_phi (block_of c) ≡ some (body c ++ (c.at ∷ []))
  unfolding move_produces
  move_produces_lem c ok = rw (find_term_lem [] c.before c.after c.at ok.term ok.before) (
      ap some (
        sink_lem c.before (reverse c.after) c.at (Free-reverse_aux is_term c.after [] ok.after tt)))

  abbrev tops : List A → List A
  tops = only is_phi

  abbrev others : List A → List A
  others = only (λ x. not (is_phi x))

  raise_lem :
      (top : List A) (first : A) (passed xs : List A)
      → raise is_term is_phi top first passed xs
        ≡ (top ++ tops xs) ++ (first ∷ (passed ++ others xs))
  unfolding raise
  raise_lem top first passed [] = rw (append-nil top, append-nil passed) refl
  raise_lem top first passed (x ∷ xs) = elim (Bool-cases (is_phi x)) [
    | inl e ↦ rw e (
        rw (sym (append_assoc top (x ∷ []) (tops xs)))
          (raise_lem (top ++ (x ∷ [])) first passed xs))
    | inr e ↦ rw e (
        rw (sym (append_assoc passed (x ∷ []) (others xs)))
          (raise_lem top first (passed ++ (x ∷ [])) xs))
  ]

  first_nonphi_lem :
      (done xs : List A) (t : A)
      → is_phi t ≡ false
      → (c : Cut A) × (first_nonphi is_term is_phi done (xs ++ (t ∷ [])) ≡ some c)
        × (raise is_term is_phi c.before c.at [] c.after
            ≡ (done ++ tops xs) ++ (others xs ++ (t ∷ [])))
  unfolding first_nonphi
  first_nonphi_lem done [] t h =
      (record { before = done; at = t; after = [] }, rw h refl, raise_lem done t [] [])
  first_nonphi_lem done (x ∷ xs) t h = elim (Bool-cases (is_phi x)) [
    | inl e ↦
        let (c, eq, r) = first_nonphi_lem (done ++ (x ∷ [])) xs t h in
        (
          c,
          rw e eq,
          rw e (r ∙ ap (λ l. l ++ (others xs ++ (t ∷ []))) (append_assoc done (x ∷ []) (tops xs))),
        )
    | inr e ↦
        let last_top : tops (xs ++ (t ∷ [])) ≡ tops xs =
          only-append is_phi xs (t ∷ []) ∙ rw h (append-nil (tops xs)) in
        let last_other : others (xs ++ (t ∷ [])) ≡ others xs ++ (t ∷ []) =
          only-append (λ y. not (is_phi y)) xs (t ∷ []) ∙ rw h refl in
        (
          record { before = done; at = x; after = xs ++ (t ∷ []) },
          rw e refl,
          rw e (
              raise_lem done x [] (xs ++ (t ∷ []))
              ∙ ap₂ (λ k l. (done ++ k) ++ (x ∷ l)) last_top last_other),
        )
  ]

  move_phis_lem :
      (c : Cut A) → IsBlock c → move_phis is_term is_phi (body c ++ (c.at ∷ [])) ≡ some (tidied c)
  unfolding move_phis
  move_phis_lem c ok =
      let (d, eq, r) = first_nonphi_lem [] (body c) c.at ok.nonphi in
      rw eq (ap some (r ∙ sym (append_assoc (tops (body c)) (others (body c)) (c.at ∷ []))))

  abbrev pub AreBlocks : List (Cut A) → Type 0
  AreBlocks [] = Unit
  AreBlocks (c ∷ cs) = IsBlock c × AreBlocks cs

  each_block_lem :
      (f : List A → Option (List A)) (from to : Cut A → List A) (cs : List (Cut A))
      → ((c : Cut A) → IsBlock c → f (from c) ≡ some (to c))
      → AreBlocks cs
      → each_block is_term is_phi f (map from cs) ≡ some (map to cs)
  unfolding each_block
  each_block_lem f from to [] h ok = refl
  each_block_lem f from to (c ∷ cs) h (ok, oks) =
      rw (h c ok, each_block_lem f from to cs h oks) refl

  -- If every block of the threads' functions has one terminator, which is no phi node, `cleanup`
  -- gets to the deletion of the loop. Every block then has its phi nodes first, the terminator last
  -- and the other instructions between them. Phi nodes and others keep their order each, where what
  -- stood behind the terminator counts from the last instruction on.
  pub clean_up-tidied :
      (cs : List (Cut A))
      → AreBlocks cs
      → clean_up is_term is_phi (map block_of cs) ≡ some (map tidied cs)
  unfolding clean_up
  clean_up-tidied cs ok =
      rw
        (each_block_lem (move_produces is_term is_phi) block_of (λ c. body c ++ (c.at ∷ [])) cs
          move_produces_lem ok)
        (each_block_lem (move_phis is_term is_phi) (λ c. body c ++ (c.at ∷ [])) tidied cs
          move_phis_lem ok)
