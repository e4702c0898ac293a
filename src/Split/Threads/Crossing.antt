-- ===== src/Split/Threads/Crossing.antt =====
-- What the functions of the threads have for the dependences that `insertSynchronization` couples
-- (DSWP_4.cpp and DSWP_5.cpp).
use dswp_plus.Base.{
  ℕ, ◌≡◌, refl, sym, ap, ◌∙◌, ◌≤◌, ◌<◌, true, Option, none, some, List, [], count, get_or, arith,
  Bool-cases, Option-cases, inl, inr, pos, ◌==ℤ◌,
}
use dswp_plus.Base.Result.{ok}
use dswp_plus.Pdg.Tables.{IsConsistent}
use dswp_plus.Scc.Graph.{Depends, rev-of-pdg}
use dswp_plus.Split.Code.Relevant.{relevant_blocks-IsRelevant}
use dswp_plus.Split.Code.Target.Nearest.{IsTree, IsPointable, new_inst_total}
use dswp_plus.Split.Code.Copy.{Copies, keeps, copy_blocks}
use dswp_plus.Split.Code.Copy.Next.{IsNext-count}
use dswp_plus.Split.Code.Copy.Thread.{no_copies, IsCode, Follows, copy_blocks-placed}
use dswp_plus.Split.Threads.{Names, Loop, thread_blocks, block_map}

-- Where `insertConsume` puts what it makes for an old instruction: the entry of `placeEquivalents`, or
-- that of `instMap`.
abbrev pub or_else : Option ℕ → Option ℕ → Option ℕ
or_else none q = q
or_else (some p) q = some p

-- `insPos`, for the new instruction `nu` of the source: first `newToOld` gives its old one.
abbrev pub place_of : (ℕ → Option ℕ) → (ℕ → Option ℕ) → (ℕ → Option ℕ) → ℕ → Option ℕ
place_of new_to_old places inst_map nu = elim (new_to_old nu) [
  | none ↦ none
  | some oldu ↦ or_else (places oldu) (inst_map oldu)
]

-- The tables that the first three steps leave, as the loop finds them: the components list their
-- instructions, and the parts of the threads their components.
pub record IsSplit (l : Loop) (insts : List ℕ) : Type 0 where
  pub tables : IsConsistent l.graph
  pub component : ℕ → ℕ
  pub members : (x : ℕ) → 0 < count x insts → 0 < count x (get_or l.inst_in_scc (component x) [])
  pub parts :
      (x i : ℕ) → 0 < count x insts → l.thread x ≡ pos i → 0 < count (component x) (l.part i)

module _ (l : Loop) (insts : List ℕ) (ok_split : IsSplit l insts) (fuel i : ℕ) where
  -- The block of an instruction of the thread is one of the thread's.
  own_block :
      (x : ℕ)
      → 0 < count x insts
      → l.thread x ≡ pos i
      → 0 < count (l.parent x) (thread_blocks l fuel i)
  unfolding thread_blocks
  own_block x c t =
      ((relevant_blocks-IsRelevant l.parent l.graph l.inst_in_scc (l.part i)).1 (l.parent x)).1
        (ok_split.component x, ok_split.parts x i c t, (x, ok_split.members x c, inl refl))

  -- So is that of an instruction on which one of the thread depends.
  source_block :
      (u x : ℕ)
      → 0 < count x insts
      → l.thread x ≡ pos i
      → Depends l.graph u x
      → 0 < count (l.parent u) (thread_blocks l fuel i)
  unfolding thread_blocks
  source_block u x c t d =
      ((relevant_blocks-IsRelevant l.parent l.graph l.inst_in_scc (l.part i)).1 (l.parent u)).1 (
        ok_split.component x,
        ok_split.parts x i c t,
        (x, ok_split.members x c, inr (u, rev-of-pdg u x ok_split.tables d, refl)),
      )

  module _ (n : Names) (depth : ℕ) (enough : depth ≤ fuel) where
    -- What LLVM's function is to the thread: blocks that end in a terminator, dominator trees no deeper
    -- than the fuel, a copied block above each to which a copy points, and different addresses for the
    -- copies.
    pub record IsReady : Type 0 where
      pub code :
          IsCode l.cfg fuel
            (block_map l fuel n (thread_blocks l fuel i))
            l.thread
            i
            n.copy
            l.parent
            (thread_blocks l fuel i)
      pub post : IsTree l.cfg.postidom depth
      pub dom : IsTree l.cfg.idom depth
      pub pointable :
          (x : ℕ)
          → 0 < count (l.parent x) (thread_blocks l fuel i)
          → keeps l.cfg fuel (block_map l fuel n (thread_blocks l fuel i)) l.thread i n.copy x
            ≡ true
          → IsPointable l.cfg depth fuel (block_map l fuel n (thread_blocks l fuel i)) enough x
      pub distinct : (x y : ℕ) → n.copy x ≡ n.copy y → x ≡ y

    -- What `insertSynchronization` and `insertConsume` look for in the tables of a thread.
    pub record HasPlaces (t : Copies) : Type 0 where
      pub own : (x : ℕ) → 0 < count x insts → l.thread x ≡ pos i → t.inst_map x ≡ some (n.copy x)
      pub only :
          (x m : ℕ)
          → t.inst_map x ≡ some m
          → (keeps l.cfg fuel (block_map l fuel n (thread_blocks l fuel i)) l.thread i n.copy x
              ≡ true)
            × (m ≡ n.copy x)
      pub old : (x : ℕ) → 0 < count x insts → l.thread x ≡ pos i → t.new_to_old (n.copy x) ≡ some x
      pub copied_from : (m x : ℕ) → t.new_to_old m ≡ some x → m ≡ n.copy x
      pub place :
          (u x : ℕ)
          → 0 < count x insts
          → l.thread x ≡ pos i
          → Depends l.graph u x
          → (new_to_old : ℕ → Option ℕ) (nu : ℕ) → new_to_old nu ≡ some u
          → (y : ℕ) × (place_of new_to_old t.places t.inst_map nu ≡ some (n.copy y))
            × (l.parent y ≡ l.parent u)

    -- Let the members that the steps before `loopSplit` leave be in step, let every block of the thread
    -- end in a terminator, let there be a copied block above each to which a copy points, in trees no
    -- deeper than the fuel, and let copies have different addresses. Then the copying for the thread
    -- returns. Each instruction of the thread has its copy in `instMap`, and `newToOld` leads from the
    -- copy to it and from nothing but its copy to any instruction. For each instruction on which one
    -- of the thread depends, from any new instruction that `newToOld` leads to it, `insertConsume`
    -- finds a place: the copy of an instruction of the same block.
    pub copy_blocks-HasPlaces :
        IsReady
        → (t : Copies) × (copy_blocks l.cfg fuel
              (block_map l fuel n (thread_blocks l fuel i))
              l.thread
              i
              n.copy
              n.copied
              (thread_blocks l fuel i)
              no_copies
            ≡ ok t)
          × HasPlaces t
    copy_blocks-HasPlaces r =
        let rel = thread_blocks l fuel i in
        let m = block_map l fuel n rel in
        let (t, eq, mapped, only, placed, points, named, back) =
          copy_blocks-placed l.cfg fuel m l.thread i n.copy l.parent n.copied rel r.code (λ x c k.
            new_inst_total l.cfg depth fuel m enough r.post r.dom x (r.pointable x c k)) in
        let same_block : (x y : ℕ)
            → Follows l.cfg fuel m l.thread i n.copy x y
            → l.parent y ≡ l.parent x =
          λ x y (b, f).
            let (cx, cy) = IsNext-count (keeps l.cfg fuel m l.thread i n.copy) x y f in
            (r.code.owns b y).0 cy ∙ sym ((r.code.owns b x).0 cx) in
        let place_lem : (u x : ℕ)
            → 0 < count x insts
            → l.thread x ≡ pos i
            → Depends l.graph u x
            → (y : ℕ) × (or_else (t.places u) (t.inst_map u) ≡ some (n.copy y))
              × (l.parent y ≡ l.parent u) =
          λ u x c e d. elim (Option-cases (t.places u)) [
            | inr (q, h) ↦
                let (y, f, e') = points u q h in
                (y, ap (λ o. or_else o (t.inst_map u)) h ∙ ap some e', same_block u y f)
            | inl h ↦ elim (Bool-cases (keeps l.cfg fuel m l.thread i n.copy u)) [
              | inl k ↦ (
                u,
                ap (λ o. or_else o (t.inst_map u)) h ∙ mapped u (source_block u x c e d) k,
                refl,
              )
              | inr k ↦ let (y, _, e') = placed u (source_block u x c e d) k in absurd (cc)
            ]
          ] in
        (
          t,
          eq,
          record {
            own = λ x c e. mapped x (own_block x c e) (ground (arith, ap (λ z. z ==ℤ pos i) e));
            only = only;
            old = λ x c e.
                let (y, h) = named x (own_block x c e) (ground (arith, ap (λ z. z ==ℤ pos i) e)) in
                h ∙ ap some (sym (r.distinct x y (back (n.copy x) y h).1));
            copied_from = λ q x h. (back q x h).1;
            place = λ u x c e d new_to_old nu at_u.
                let (y, found, same) = place_lem u x c e d in
                (
                  y,
                  ap
                        (λ (o : Option ℕ). elim o [
                          | none ↦ none
                          | some oldu ↦ or_else (t.places oldu) (t.inst_map oldu)
                        ])
                        at_u
                      ∙ found,
                  same,
                );
          },
        )
