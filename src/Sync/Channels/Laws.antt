-- ===== src/Sync/Channels/Laws.antt =====
-- The channels of `insertSynchronization`: their numbers, and the dependences that they carry.
use mathlib.Core.List.{Memᴰ}
use mathlib.Core.List.Memᴰ
use dswp_plus.Base.{
  ℕ, zero, suc, ◌≡◌, refl, sym, ap, subst, ◌∙◌, ◌+◌, ◌≤◌, ◌<◌, Bool, true, false, ◌&&◌, Option,
  some, List, [], ◌∷◌, ◌++◌, ◌⊎◌, inl, inr, arith, Option-cases, Bool-cases,
}
use dswp_plus.Pdg.{Edge}
use dswp_plus.Partition.{max_thread}
use dswp_plus.Sync.Channels.{Call, Sites, Sync, produces, consumes, insert_pair, sync_pair}

-- The numbers below `n`, in order.
abbrev pub first : ℕ → List ℕ
first zero = []
first (suc n) = first n ++ (n ∷ [])

abbrev pub channels : List Call → List ℕ
channels [] = []
channels (c ∷ cs) = c.channel ∷ channels cs

suc_is_add : (n : ℕ) → suc n ≡ n + 1
suc_is_add n = omega arith

channels-append : (cs ds : List Call) → channels (cs ++ ds) ≡ channels cs ++ channels ds
channels-append [] ds = refl
channels-append (c ∷ cs) ds = ap (λ l. c.channel ∷ l) (channels-append cs ds)

-- The calls that are there stay, each thread makes one more at most, and an exit is for good.
pub record Grows (n : ℕ) (s s' : Sync) : Type 0 where
  pub kept : (c : Call) → Memᴰ c s.calls → Memᴰ c s'.calls
  pub few : s'.channel ≤ s.channel + n
  pub going : s'.exited ≡ false → s.exited ≡ false

module _ (thread : ℕ → ℕ) (inst_map : ℕ → ℕ → Option ℕ) (is_inst : ℕ → Bool) (sites : Sites) where
  -- Both ends of the edge are instructions, one in its own thread and the other in `vtr`.
  pub record IsPair (e : Edge) (vtr nu nv : ℕ) : Type 0 where
    pub source : inst_map (thread e.u) e.u ≡ some nu
    pub target : inst_map vtr e.v ≡ some nv
    pub source_inst : is_inst nu ≡ true
    pub target_inst : is_inst nv ≡ true

  abbrev pub call_of : Edge → ℕ → ℕ → ℕ → ℕ → Call
  call_of e vtr nu nv k = record {
    u = nu;
    v = nv;
    dtype = e.dtype;
    channel = k;
    uthread = thread e.u;
    vthread = vtr;
  }

  -- A dependence of the list that leads to a later thread.
  pub record IsFrom (edges : List Edge) (c : Call) : Type 0 where
    pub edge : Edge
    pub listed : Memᴰ edge edges
    pub later : c.uthread < c.vthread
    pub bound : c.vthread < max_thread
    pub pair : IsPair edge c.vthread c.u c.v
    pub same : c ≡ call_of edge c.vthread c.u c.v c.channel

  -- `insertProduce` and `insertConsume` return for the call.
  abbrev pub inserts : Call → Bool
  inserts c = produces sites c && consumes sites c

  pub record IsNumbered (edges : List Edge) (s : Sync) : Type 0 where
    pub numbers : channels s.calls ≡ first s.channel
    pub sound : (c : Call) → Memᴰ c s.calls → IsFrom edges c × (inserts c ≡ true)
    pub failed :
        s.exited ≡ true
        → (c : Call) × IsFrom edges c × (c.channel ≡ s.channel) × (inserts c ≡ false)

  abbrev push : Edge → ℕ → ℕ → ℕ → Sync → Sync
  push e vtr nu nv s = record {
    calls = s.calls ++ (call_of e vtr nu nv s.channel ∷ []);
    channel = s.channel + 1;
    exited = s.exited;
  }

  abbrev end : Sync → Sync
  end s = record s { exited = true }

  -- The call for the pair is made, or it ends the program.
  abbrev pub IsInserted : Edge → ℕ → ℕ → ℕ → Sync → Sync → Type 0
  IsInserted e vtr nu nv s s' =
      ((inserts (call_of e vtr nu nv s.channel) ≡ true) × (s' ≡ push e vtr nu nv s))
      ⊎ ((inserts (call_of e vtr nu nv s.channel) ≡ false) × (s' ≡ end s))

  insert_pair_cases :
      (c : Call) (s : Sync)
      → ((inserts c ≡ true)
          × (insert_pair sites c s
              ≡ record { calls = s.calls ++ (c ∷ []); channel = s.channel + 1; exited = s.exited }))
        ⊎ ((inserts c ≡ false) × (insert_pair sites c s ≡ end s))
  unfolding insert_pair
  insert_pair_cases c s = elim (Bool-cases (inserts c)) [
    | inl e ↦ inl (e, rw (insert_pair, e) refl)
    | inr e ↦ inr (e, rw (insert_pair, e) refl)
  ]

  pub sync_pair-IsPair :
      (e : Edge) (vtr nu nv : ℕ) (s : Sync)
      → s.exited ≡ false
      → IsPair e vtr nu nv
      → IsInserted e vtr nu nv s (sync_pair thread inst_map is_inst sites e vtr s)
  unfolding sync_pair
  sync_pair-IsPair e vtr nu nv s on p =
      let step : sync_pair thread inst_map is_inst sites e vtr s
          ≡ insert_pair sites (call_of e vtr nu nv s.channel) s =
        simp (sync_pair, on, p.source, p.target, p.source_inst, p.target_inst) refl in
      subst (IsInserted e vtr nu nv s) (sym step)
        (insert_pair_cases (call_of e vtr nu nv s.channel) s)

  sync_pair-cases :
      (e : Edge) (vtr : ℕ) (s : Sync)
      → (sync_pair thread inst_map is_inst sites e vtr s ≡ s)
        ⊎ ((nu nv : ℕ) × IsPair e vtr nu nv
            × (s.exited ≡ false)
            × IsInserted e vtr nu nv s (sync_pair thread inst_map is_inst sites e vtr s))
  unfolding sync_pair
  sync_pair-cases e vtr s = elim (Bool-cases s.exited) [
    | inl off ↦ inl (simp (sync_pair, off) refl)
    | inr on ↦ elim (Option-cases (inst_map (thread e.u) e.u)) [
      | inl n ↦ inl (simp (sync_pair, on, n) refl)
      | inr (nu, hu) ↦ elim (Option-cases (inst_map vtr e.v)) [
        | inl n ↦ inl (simp (sync_pair, on, hu, n) refl)
        | inr (nv, hv) ↦ elim (Bool-cases (is_inst nu)) [
          | inl iu ↦ elim (Bool-cases (is_inst nv)) [
            | inl iv ↦
                let p : IsPair e vtr nu nv = record {
                  source = hu;
                  target = hv;
                  source_inst = iu;
                  target_inst = iv;
                } in
                inr (nu, nv, p, on, sync_pair-IsPair e vtr nu nv s on p)
            | inr iv ↦ inl (simp (sync_pair, on, hu, hv, iu, iv) refl)
          ]
          | inr iu ↦ inl (simp (sync_pair, on, hu, hv, iu) refl)
        ]
      ]
    ]
  ]

  pair_call-IsFrom :
      (edges : List Edge) (e : Edge) (vtr nu nv k : ℕ)
      → Memᴰ e edges
      → thread e.u < vtr
      → vtr < max_thread
      → IsPair e vtr nu nv
      → IsFrom edges (call_of e vtr nu nv k)
  pair_call-IsFrom edges e vtr nu nv k m h h' p = record {
    edge = e;
    listed = m;
    later = h;
    bound = h';
    pair = p;
    same = refl;
  }

  push-IsNumbered :
      (edges : List Edge) (e : Edge) (vtr nu nv : ℕ) (s : Sync)
      → s.exited ≡ false
      → IsFrom edges (call_of e vtr nu nv s.channel)
      → inserts (call_of e vtr nu nv s.channel) ≡ true
      → IsNumbered edges s
      → IsNumbered edges (push e vtr nu nv s)
  push-IsNumbered edges e vtr nu nv s on from fits i = record {
    numbers =
        channels-append s.calls (call_of e vtr nu nv s.channel ∷ [])
        ∙ ap (λ l. l ++ (s.channel ∷ [])) i.numbers
        ∙ ap first (suc_is_add s.channel);
    sound = λ c n. elim (Memᴰ.append_cases s.calls n) [
      | inl old ↦ i.sound c old
      | inr new ↦
          let same = Memᴰ.eq_of_singleton new in
          subst (λ d. IsFrom edges d × (inserts d ≡ true)) (sym same) (from, fits)
    ];
    failed = λ off. absurd (cc (off, on));
  }

  pub sync_pair-IsNumbered :
      (edges : List Edge) (e : Edge) (vtr : ℕ) (s : Sync)
      → Memᴰ e edges
      → thread e.u < vtr
      → vtr < max_thread
      → IsNumbered edges s
      → IsNumbered edges (sync_pair thread inst_map is_inst sites e vtr s)
  sync_pair-IsNumbered edges e vtr s m h h' i = elim (sync_pair-cases e vtr s) [
    | inl same ↦ subst (IsNumbered edges) (sym same) i
    | inr (nu, nv, p, on, done) ↦
        let from = pair_call-IsFrom edges e vtr nu nv s.channel m h h' p in
        elim done [
          | inl (fits, same) ↦
              subst (IsNumbered edges) (sym same)
                (push-IsNumbered edges e vtr nu nv s on from fits i)
          | inr (fails, same) ↦ subst (IsNumbered edges) (sym same) (record {
            numbers = i.numbers;
            sound = i.sound;
            failed = λ off. (call_of e vtr nu nv s.channel, from, refl, fails);
          })
        ]
  ]

  pub sync_pair-Grows :
      (e : Edge) (vtr : ℕ) (s : Sync) → Grows 1 s (sync_pair thread inst_map is_inst sites e vtr s)
  sync_pair-Grows e vtr s = elim (sync_pair-cases e vtr s) [
    | inl same ↦
        subst (Grows 1 s) (sym same)
          (record { kept = λ c m. m; few = omega arith; going = λ on. on })
    | inr (nu, nv, p, on, done) ↦ elim done [
      | inl (fits, same) ↦
          subst (Grows 1 s) (sym same)
            (record { kept = λ c m. Memᴰ.append_left _ m; few = omega arith; going = λ _. on })
      | inr (fails, same) ↦
          subst (Grows 1 s) (sym same)
            (record { kept = λ c m. m; few = omega arith; going = λ _. on })
    ]
  ]
