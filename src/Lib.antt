-- ===== src/Lib.antt =====
-- DSWP-plus is an LLVM pass for decoupled software pipelining: it splits a loop into threads that
-- pass values through queues, so that dependences lead forwards from thread to thread only. Its
-- steps, each in a file of the repository, are those of `DSWP::runOnLoop` (DSWP_0.cpp):
--
--   1. DSWP_1.cpp `buildPDG`: the dependence graph, written by `addEdge` (DSWP_0.cpp);
--   2. DSWP_2.cpp `findSCC`: its strongly connected components, by two depth-first passes, and
--      the table of which component depends on which;
--   3. DSWP_3.cpp `threadPartition`: components go to threads, by latency;
--   4. DSWP_4.cpp: liveness, and the bodies of the new functions;
--   5. DSWP_5.cpp: produce and consume calls on numbered channels, and the clean-up.
--
-- The generated code calls runtime/simple_sync.c, an array of circular buffers (runtime/queue.c).
--
-- Files:
--
--   * Base: shared names, Boolean tests, lists under native indices, the integers of `assigned`.
--   * Pdg: `DType`, `Edge` (DSWP.h), the tables `pdg`, `rev`, `allEdges` and `addEdge`.
--   * Search: the depth-first walk that `dfs_forward`, `dfs_reverse` and `dfsVisit` share.
--   * Scc: DSWP_2.cpp. The members of the class that the passes write are the record `Scc`; the
--     member `list` is its field `order`.
--   * Partition: DSWP_3.cpp, with `std::priority_queue` as a parameter.
--   * Pipeline: the second and third step together.
--   * Build: DSWP_1.cpp, with LLVM's analyses as a parameter: Data has the register and memory
--     dependences, Blocks the order of the blocks and the branches of the dummy blocks, Control
--     the control dependences. Whole is `buildPDG` as a whole: it makes the peeled loop
--     (Blocks.Dummies) and climbs in LLVM's postdominator tree for it, which is described by
--     paths (Control.PostDominators).
--   * Driver: `initialize`, and `runOnLoop` up to the partition. Members has the members of the
--     class from loop to loop, with `clear` (DSWP_5.cpp). Declarations is `doInitialization`,
--     against the prototypes in runtime/simple_sync.h and runtime/runtime_debug.h.
--   * Split: DSWP_4.cpp and `replaceUses` (Utils.h). Liveness is `getLiveinfo`, Dominators is
--     `getDominators`, Pre is `preLoopSplit`: the block that takes the loop's place, and the
--     functions of the threads (Pre.Functions). Code has the inner loops of `loopSplit`: the
--     blocks of a thread (Relevant), where a branch goes (Target), the copies (Copy). Threads is
--     `loopSplit` as a whole, and what the next step finds in its tables.
--   * Sync: DSWP_5.cpp. Channels is `insertSynchronization`, Crossing sets it behind the steps
--     before it, Casts and Uses are `insertProduce` and `insertConsume`, Clean and Delete are
--     `cleanup`. Placed goes through the five steps for one dependence.
--   * Runtime: runtime/queue.c (Queue, and Monitor for its mutex and its condition variables) and
--     runtime/simple_sync.c (Channels for the queues, Threads for the handles).
--
-- An LLVM object (instruction, block, value) is the number that stands for its address. A
-- `std::map` is a function whose default is what `operator[]` gives at an absent key. `int`
-- values are natural numbers where the code keeps them so, and the field `assigned`, which holds
-- -2, is an integer. Recursive functions and `while` loops take fuel: the number of instructions
-- for the depth-first passes, since a call marks an instruction that was not marked; the number
-- of components for the partition, since each is taken out of the queue once; and one more than
-- the depth of the postdominator tree for the control dependences, since the climb goes up in it;
-- and the depth of the dominator and postdominator trees for the climbs of `loopSplit`. The
-- theorems state what fuel gives a result. A call of `error`, which exits, is `exits` of
-- Base.Result in Split, the field `exited` in Sync.Channels, which keeps the calls made before,
-- and `none` elsewhere.
--
-- Not modelled: the printing to `cout`, the files that the functions of DSWP_DEBUG.cpp write,
-- LLVM itself, and what is listed as missing in the files' own headers. `checkEdge` and
-- `getNewInstAssigned` are never called. The last part of `runOnLoop`, from `getLiveinfo` on, is
-- modelled step by step and is not one function here.
pub mod Base
pub mod Pdg
pub mod Search
pub mod Scc
pub mod Partition
pub mod Pipeline
pub mod Build
pub mod Split
pub mod Sync
pub mod Driver
pub mod Runtime
