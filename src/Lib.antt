-- ===== src/Lib.antt =====
-- repCXL: objects that are replicated on several shared memory nodes, with processes that work in
-- synchronised rounds. The paths below are those of the repository.
--
-- The parts of the program and their models:
--   Request        src/request.rs: write identifiers (`Wid`), requests, answers of reads.
--   ObjectIndex    src/shmem/object_index.rs: the allocator (`new`, `lookup_object`, `alloc_object`,
--                  `dealloc_object`), with its invariant in ObjectIndex/Valid.
--   Wcc            src/shmem/wcc.rs: the write conflict checkers `WCC` and `WCCMultiObject`
--                  (Wcc/Register), `ObjectWCC` (Wcc/Object), `ProcessBitmapUncached` (Wcc/Bitmap,
--                  its flushes in Wcc/Uncached) and `FastWCC` (Wcc/Fast).
--   Shmem          src/shmem.rs and src/shmem/starting_block.rs: the shared state, the memory nodes,
--                  the mapping of a node (Shmem/Mapping) and the starting block.
--   Memio          src/safe_memio.rs: writes and reads of an object on all nodes; which cache lines
--                  the flushes reach (Memio/Flush).
--   Timer          src/timer.rs: the rounds and the waits for them; the start time on the clock of
--                  the rounds (Timer/Convert).
--   Monster        src/algorithms/monster.rs: `monster_write` (Monster/Classic), `fmonster_write`
--                  (Monster/Fast), `monster_read` (Monster/Read), the threads (Monster/Threads), and
--                  several processes in `monster_write` at once (Monster/Writers); the loser of a
--                  conflict (Monster/Conflict), a write without contention (Monster/Uncontended),
--                  the nodes after a success (Monster/Success), two candidates in one round of
--                  `fmonster_write` (Monster/Race).
--   BestEffort     src/algorithms/best_effort.rs: replication without conflict checks.
--   Algorithms     src/algorithms.rs: the choice of the algorithm by its name.
--   Config         src/config.rs: the configuration and `validate`, `parse_processes`
--                  (Config/Processes); src/utils/arg_parser.rs: the arguments (Config/Args).
--   Group          src/lib.rs, `GroupView`: processes, nodes, coordinator, master; the views up
--                  to `==` as a quotient (Group/Quotient).
--   RepCxl         src/lib.rs, `RepCXL`: construction and objects, reads, writes and threads
--                  (RepCxl/Access), the handle of an object (RepCxl/Handle), the
--                  synchronised start (RepCxl/Sync) with the rounds behind it
--                  (RepCxl/Sync/Together), a new instance (RepCxl/Created), a write and the
--                  reads after it (RepCxl/ReadBack), a new object and the reads of it
--                  (RepCxl/Published).
--   StateLog       src/utils/ms_logger.rs: the log of states, written and read back.
--   Ycsb           src/utils/ycsb.rs: the parser of trace files; src/bin/ycsb_client.rs: the load and
--                  run phases (Ycsb/Client).
--   Bench          src/bin/rep_bench.rs: how its processes come to the same objects, and the client
--                  threads (Bench/Client).
--   MemTest        src/bin/mem_test.rs: the offsets of its access patterns, and what its benchmarks
--                  read and write (MemTest/Bench).
--   RoundTest      jupyter/round-accuracy/usr-bl/src/lib.rs: the busy waits of the experiment.
--   Utils          src/utils.rs: `percentile`.
--   Legacy         src/shmem/wcc_per_req.rs and src/algorithms/shmuc.rs, which are outside the build.
--   Prelude        what the other modules share; Tests: runs at concrete inputs.
--
-- How they fit together: an instance (RepCxl) holds the view of the group (Group), and through it
-- the memory nodes (Shmem), each with a copy of the shared state: the allocator, the starting block
-- and the conflict checkers. The master, the node of the least number, is the one whose starting
-- block and checkers count. A write runs an algorithm round by round (Timer) that asks the checker
-- of the master and then writes the entry on all nodes (Memio); a read compares the first and the
-- last node.
--
-- The model: numbers of `usize` and `u64` are natural numbers, with the wrap-around of 64 bits
-- written out in the arithmetic that can reach it. A panic is the value `panic` of Prelude/Run, an
-- error is a value. Loops over arrays and nodes are recursion on lists. The spin loops of Timer
-- and RoundTest take fuel, the number of clock readings allowed; the fuel is enough as soon as the
-- clock reaches the target within it (for busy_poll_sleep_rdtsc of RoundTest none is); a read
-- whose wait for the read offset runs out of fuel is answered `read_waits`, which is no answer of
-- the code. A replica of Bench tries for each object as often as its fuel allows, which is enough
-- if it exceeds the time from which on the object is there. The loops of the writes and of the
-- threads take the list of the rounds or requests that they meet. The clock, the failures of
-- memory accesses (`fails`, by node), what channels answer, the opening of files, the size of an
-- entry in memory and the products of durations with `f64` are parameters. A read takes two lists
-- of the nodes, as they are when it reads the first and when it reads the last, with which a write
-- may come between the two. One access of shared memory is one atomic step that all processes see
-- at once; which lines the cache flushes reach is a model of its own, Memio/Flush, in which an
-- address is a number and one more than the number of bytes is fuel enough for the loop.
--
-- Texts are lists of code points (Prelude/Text); a file is its text, and a hash map the list of its
-- entries with the newest first.
--
-- Not modelled: src/bin/shmem_obj_test.rs and the output and the times of the other programs of
-- src/bin, which print and measure; src/shmem/numa_mem_node.rs, which wraps the NUMA library; the
-- toml, clap and kanal packages; of jupyter the experiments themselves and `std`, which computes with
-- `f64` only.
pub mod Prelude
pub mod ObjectIndex
pub mod Request
pub mod Wcc
pub mod Shmem
pub mod Memio
pub mod Timer
pub mod Monster
pub mod Config
pub mod Group
pub mod BestEffort
pub mod Algorithms
pub mod RepCxl
pub mod Bench
pub mod MemTest
pub mod Utils
pub mod StateLog
pub mod Ycsb
pub mod Legacy
mod Tests
pub mod RoundTest
