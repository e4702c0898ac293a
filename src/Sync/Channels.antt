-- ===== src/Sync/Channels.antt =====
-- `DSWP::insertSynchronization`: which dependences get a channel. The calls of `insertProduce` and
-- of `insertConsume` have the same arguments, of which `calls` keeps the record in order, up to the
-- first that ends in `error`.
pub mod Laws
pub mod Threads
pub mod Covered
pub mod Bounds
use mathlib.Core.List.{foldl}
use dswp_plus.Base.{
  ℕ, zero, suc, ◌+◌, ◌-◌, Bool, true, false, not, ◌&&◌, ◌||◌, Option, none, some, List, [], ◌∷◌,
  ◌++◌, if◌then◌else◌,
}
use dswp_plus.Pdg.{DType, Edge}
use dswp_plus.Sync.Casts.{Ty, is_reg, produce_nodes, consume_nodes}
use dswp_plus.Partition.{max_thread}

-- The arguments of `insertProduce` and `insertConsume`.
pub record Call : Type 0 where
  pub u : ℕ
  pub v : ℕ
  pub dtype : DType
  pub channel : ℕ
  pub uthread : ℕ
  pub vthread : ℕ

-- What `insertProduce` and `insertConsume` ask of a new instruction: whether `getNextNode` gives one,
-- its type, and whether all users of its old instruction are instructions. `place` is where
-- `insertConsume` finds `insPos` for it in a thread, `none` for NULL.
pub record Sites : Type 0 where
  pub has_next : ℕ → Bool
  pub type_of : ℕ → Ty
  pub used_by_insts : ℕ → Bool
  pub place : ℕ → ℕ → Option ℕ

abbrev is_some {ℓ} : {A : Type ℓ} → Option A → Bool
is_some none = false
is_some (some a) = true

-- Whether `insertProduce` returns; it ends in `error` if no instruction follows, or by the type.
unfoldable pub produces : Sites → Call → Bool
unfolding produce_nodes
produces sites c =
    sites.has_next c.u && is_some (produce_nodes c.dtype (sites.type_of c.u) c.u c.channel)

-- Whether `insertConsume` returns; it ends in `error` if there is no place, by the type, or at a user
-- that is no instruction.
unfoldable pub consumes : Sites → Call → Bool
unfolding consume_nodes
consumes sites c =
    is_some (sites.place c.vthread c.u)
    && is_some (consume_nodes c.dtype (sites.type_of c.u) c.channel)
    && (not (is_reg c.dtype) || sites.used_by_insts c.u)

-- `exited` after an `error`, which ends the program.
pub record Sync : Type 0 where
  pub calls : List Call
  pub channel : ℕ
  pub exited : Bool

abbrev pub no_sync : Sync
no_sync = record { calls = []; channel = 0; exited = false }

-- The two calls, and the next channel.
unfoldable pub insert_pair : Sites → Call → Sync → Sync
unfolding produces consumes
insert_pair sites c s =
    if produces sites c && consumes sites c
    then record { calls = s.calls ++ (c ∷ []); channel = s.channel + 1; exited = s.exited }
    else record s { exited = true }

-- `thread` is `getInstAssigned`, `inst_map` is `instMap` with `none` for a null pointer, and
-- `is_inst` tells whether `dyn_cast<Instruction>` succeeds.
module _ (thread : ℕ → ℕ) (inst_map : ℕ → ℕ → Option ℕ) (is_inst : ℕ → Bool) (sites : Sites) where
  -- The body of the inner loop.
  unfoldable pub sync_pair : Edge → ℕ → Sync → Sync
  unfolding insert_pair
  sync_pair e vtr s = if s.exited then s else elim (inst_map (thread e.u) e.u) [
    | none ↦ s
    | some nu ↦ elim (inst_map vtr e.v) [
      | none ↦ s
      | some nv ↦
          if is_inst nu && is_inst nv
          then insert_pair sites
              (record {
                u = nu;
                v = nv;
                dtype = e.dtype;
                channel = s.channel;
                uthread = thread e.u;
                vthread = vtr;
              })
              s
          else s
    ]
  ]

  -- The inner loop, with `n` threads left from `vtr` on.
  unfoldable pub sync_threads : Edge → ℕ → ℕ → Sync → Sync
  unfolding sync_pair
  sync_threads e zero vtr s = s
  sync_threads e (suc n) vtr s = sync_threads e n (vtr + 1) (sync_pair e vtr s)

  unfoldable pub sync_edge : Sync → Edge → Sync
  unfolding sync_threads
  sync_edge s e = sync_threads e (max_thread - (thread e.u + 1)) (thread e.u + 1) s

  unfoldable pub insert_synchronization : List Edge → Sync
  unfolding sync_edge
  insert_synchronization edges = foldl sync_edge no_sync edges
