-- ===== src/Wcc.antt =====
-- src/shmem/wcc.rs: the write conflict checkers. A write through `mem_write_flush` and the cache
-- flushes around reads make each access see memory, so an access is one atomic step here.
pub mod Register
pub mod Object
pub mod Bitmap
pub mod Fast
pub mod Uncached
use rep_cxl.Prelude.{ℕ}

abbrev pub max_processes : ℕ
max_processes = 512
