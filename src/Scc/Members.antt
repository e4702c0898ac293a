-- ===== src/Scc/Members.antt =====
-- `InstInSCC` (DSWP_2.cpp) under the second pass.
use dswp_plus.Base.{
  ℕ, ◌≡◌, refl, ◌∙◌, ap, true, false, ◌&&◌, List, [], ◌∷◌, ◌++◌, ◌==◌, if◌then◌else◌, count,
  count-snoc, length, length-append, length-set, get_or, get_or-set, arith, ◌+◌, ◌-◌, ◌<◌,
  Bool-cases, inl, inr, eq-of-==,
}
use dswp_plus.Pdg.{Pdg, targets}
use dswp_plus.Search.{Run, done, old, new}
use dswp_plus.Search.Marks.{Run-seen}
use dswp_plus.Scc.Defs.{Scc, link, push_at, backward, new_scc, end_scc}
use dswp_plus.Scc.Backward.{backward-IsWalk, Grown, Grown-call, Run-Grown, used-link}

count-push_at :
    (l : List (List ℕ)) (k n j x : ℕ)
    → k < length l
    → count x (get_or (push_at l k n) j [])
      ≡ count x (get_or l j []) + (if k == j && x == n then 1 else 0)
unfolding push_at
count-push_at l k n j x h = elim (Bool-cases (k == j)) [
  | inl e ↦
      let e' = eq-of-== k j e in
      ground (
        arith,
        e',
        get_or-set l k j (get_or l k [] ++ (n ∷ [])) [],
        count-snoc x n (get_or l k []),
        ap (λ i. get_or l i []) e',
      )
  | inr e ↦ ground (arith, get_or-set l k j (get_or l k [] ++ (n ∷ [])) [])
]

length-push_at : (l : List (List ℕ)) (k n : ℕ) → length (push_at l k n) ≡ length l
unfolding push_at
length-push_at l k n = length-set l k _

members-link : (n : ℕ) (s : Scc) → (link n s).inst_in_scc ≡ s.inst_in_scc
unfolding link
members-link n s = ground arith

num-link : (n : ℕ) (s : Scc) → (link n s).scc_num ≡ s.scc_num
unfolding link
num-link n s = ground arith

get_or-new : (l : List (List ℕ)) (k : ℕ) → get_or (l ++ ([] ∷ [])) k [] ≡ get_or l k []
get_or-new [] k = ground arith
get_or-new (x ∷ l) k = ground (arith, get_or-new l (k - 1))

module _ (g : Pdg) where
  -- A run lists what it marks under the current component.
  Run-members :
      {v : ℕ} {ns : List ℕ} {s t : Scc}
      → Run (backward g) v ns s t
      → s.scc_num < length s.inst_in_scc
      → (length t.inst_in_scc ≡ length s.inst_in_scc)
        × ((k x : ℕ)
            → count x (get_or t.inst_in_scc k []) + (if s.used x && s.scc_num == k then 1 else 0)
              ≡ count x (get_or s.inst_in_scc k []) + (if t.used x && s.scc_num == k then 1 else 0))
  Run-members done h = (refl, λ k x. refl)
  Run-members (old {v} {n} {ns} {s} {t} e r) h =
      let (l, c) = Run-members r (ground (arith, members-link n s, num-link n s)) in
      (
        l ∙ ap length (members-link n s),
        λ k x. ground (arith, c k x, members-link n s, num-link n s, used-link n s),
      )
  Run-members (new {v} {n} {ns} {s} {t} {u} e r r') h =
      let call = Run-Grown g r in
      let (l, c) = Run-members r h in
      let kept = length-push_at t.inst_in_scc t.scc_num n in
      let (l', c') = Run-members r' (omega (arith, call.num, kept)) in
      (
        l' ∙ kept ∙ l,
        λ k x. ground (
          arith,
          c k x,
          c' k x,
          call.num,
          count-push_at t.inst_in_scc t.scc_num n k x,
          Run-seen (backward-IsWalk g) r n (ground arith),
        ),
      )

-- Between two calls from the loop of `findSCC`.
pub record HasMembers (s : Scc) : Type 0 where
  pub size : length s.inst_in_scc ≡ s.scc_num
  pub members :
      (k x : ℕ)
      → count x (get_or s.inst_in_scc k []) ≡ (if s.used x && s.scc_id x == k then 1 else 0)

module _ (g : Pdg) (r : ℕ) (s t : Scc) (ok : HasMembers s) (e : s.used r ≡ false)
    (ids : (x : ℕ) → s.used x ≡ true → s.scc_id x < s.scc_num)
    (run : Run (backward g) r (targets (g.rev r)) ((backward g).enter r (new_scc s)) t) where
  abbrev after : Scc
  after = end_scc ((backward g).leave r t)

  call : Grown (new_scc s) ((backward g).leave r t)
  call = Grown-call g r (new_scc s) t e (Run-Grown g run)

  room : s.scc_num < length (new_scc s).inst_in_scc
  room = omega (arith, ok.size, length-append s.inst_in_scc ([] ∷ []))

  -- The list of component `k` grows by what was marked, if `k` is the current one.
  after-count :
      (k x : ℕ)
      → count x (get_or after.inst_in_scc k []) + (if s.used x && s.scc_num == k then 1 else 0)
        ≡ count x (get_or s.inst_in_scc k []) + (if after.used x && s.scc_num == k then 1 else 0)
  after-count k x = ground (
    arith,
    (Run-members g run room).1 k x,
    (Run-members g run room).0,
    call.num,
    room,
    count-push_at t.inst_in_scc t.scc_num r k x,
    Run-seen (backward-IsWalk g) run r (ground arith),
    get_or-new s.inst_in_scc k,
  )

  pub root-HasMembers : HasMembers after
  root-HasMembers = record {
    size = omega (
      arith,
      ok.size,
      length-append s.inst_in_scc ([] ∷ []),
      (Run-members g run room).0,
      length-push_at t.inst_in_scc t.scc_num r,
      call.num,
    );
    members = λ k x. elim (Bool-cases (s.used x)) [
      | inl a ↦
          ground (arith, after-count k x, ok.members k x, call.kept x a, call.seen x a, ids x a)
      | inr a ↦ ground (arith, after-count k x, ok.members k x, call.fresh x a, call.num)
    ];
  }
