-- ===== src/Sync/Channels/Bounds.antt =====
-- The channels of `insertSynchronization` (DSWP_5.cpp) and the array of queues of
-- runtime/simple_sync.c.
use mathlib.Core.List.{Memᴰ}
use mathlib.Core.List.Memᴰ
use dswp_plus.Base.{
  ℕ, zero, suc, ◌≡◌, ◌≢◌, sym, ap, ◌∙◌, ◌≤◌, ◌<◌, Bool, Option, List, [], ◌∷◌, count, count-snoc,
  arith, length, inl, inr,
}
use dswp_plus.Pdg.{Edge}
use dswp_plus.Runtime.Queue.{Queue}
use dswp_plus.Runtime.Channels.{
  num_queues, out_of_bounds, sync_produce, sync_consume, IsRuntime, sync_produce-channel,
  sync_consume-channel,
}
use dswp_plus.Sync.Channels.{Call, Sites, insert_synchronization}
use dswp_plus.Sync.Channels.Laws.{first, channels}
use dswp_plus.Sync.Channels.Covered.{insert_synchronization-IsSynced}

count-first : (k n : ℕ) → (count k (first n) ≤ 1) × ((0 < count k (first n)) → k < n)
count-first k zero = (omega arith, λ h. absurd (omega (arith, h)))
count-first k (suc n) =
    let (one, less) = count-first k n in
    (
      ground (arith, one, less, count-snoc k n (first n)),
      λ h. ground (arith, h, less, count-snoc k n (first n)),
    )

count-channels : (c : Call) (cs : List Call) → Memᴰ c cs → 0 < count c.channel (channels cs)
count-channels c cs (Memᴰ.head {x = d} {xs = ds} e) =
    let e' : c.channel ≡ d.channel = ap (λ (x : Call). x.channel) e in ground (arith, e')
count-channels c cs (Memᴰ.tail {x = d} {xs = ds} m) = omega (arith, count-channels c ds m)

-- A number that stands once among the channels is that of one call.
channels_apart :
    (cs : List Call) (c d : Call)
    → count c.channel (channels cs) ≤ 1
    → c.channel ≡ d.channel
    → Memᴰ c cs
    → Memᴰ d cs
    → c ≡ d
channels_apart [] c d one e m m' = absurd (Memᴰ.not-nil m)
channels_apart (x ∷ xs) c d one e m m' = elim (Memᴰ.cases_cons m) [
  | inl h ↦ elim (Memᴰ.cases_cons m') [
    | inl h' ↦ h ∙ sym h'
    | inr n' ↦
        let hx : c.channel ≡ x.channel = ap (λ (y : Call). y.channel) h in
        let more = count-channels d xs n' in absurd (ground (arith, one, hx, e, more))
  ]
  | inr n ↦ elim (Memᴰ.cases_cons m') [
    | inl h' ↦
        let hx : d.channel ≡ x.channel = ap (λ (y : Call). y.channel) h' in
        let more = count-channels c xs n in absurd (ground (arith, one, hx, e, more))
    | inr n' ↦ channels_apart xs c d (omega (arith, one)) e n n'
  ]
]

-- If there are no more edges than `NUM_QUEUES`, every call that `insertSynchronization` makes has a
-- channel of the array, and no other call has that one. Whatever the queues hold, `sync_produce` and
-- `sync_consume` on it stay in the array.
pub insert_synchronization-bounded :
    (thread : ℕ → ℕ) (inst_map : ℕ → ℕ → Option ℕ) (is_inst : ℕ → Bool) (sites : Sites)
    (edges : List Edge)
    → length edges ≤ num_queues
    → let s = insert_synchronization thread inst_map is_inst sites edges in
      ((c : Call) → Memᴰ c s.calls → c.channel < num_queues)
      × ((c d : Call) → Memᴰ c s.calls → Memᴰ d s.calls → c.channel ≡ d.channel → c ≡ d)
      × ((c : Call) (elem : ℕ) (queues : List Queue)
          → Memᴰ c s.calls
          → IsRuntime queues
          → (sync_produce elem c.channel queues ≢ out_of_bounds)
            × (sync_consume c.channel queues ≢ out_of_bounds))
insert_synchronization-bounded thread inst_map is_inst sites edges short =
    let s = insert_synchronization thread inst_map is_inst sites edges in
    let synced = insert_synchronization-IsSynced thread inst_map is_inst sites edges in
    let place : (k : ℕ) → count k (channels s.calls) ≡ count k (first s.channel) =
      λ k. ap (count k) synced.numbered.numbers in
    let bound : (c : Call) → Memᴰ c s.calls → c.channel < num_queues = λ c m.
      let less =
        (count-first c.channel s.channel).1
          (omega (arith, count-channels c s.calls m, place c.channel)) in
      omega (arith, less, synced.few, short) in
    (
      bound,
      λ c d m m' e.
          channels_apart s.calls c d
            (omega (arith, place c.channel, (count-first c.channel s.channel).0)) e m m',
      λ c elem queues m ok. (
        λ out. elim (sync_produce-channel elem c.channel queues ok (bound c m)) [
          | inl (b, _) ↦ absurd (cc (b, out))
          | inr (_, r, _, _) ↦ absurd (cc (r, out))
        ],
        λ out. elim (sync_consume-channel c.channel queues ok (bound c m)) [
          | inl (b, _) ↦ absurd (cc (b, out))
          | inr (_, _, r, _, _, _) ↦ absurd (cc (r, out))
        ],
      ),
    )
