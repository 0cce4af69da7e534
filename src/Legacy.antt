-- ===== src/Legacy.antt =====
-- Code that is outside the build: src/algorithms/shmuc.rs and src/shmem/wcc_per_req.rs.
pub mod WccPerReq
pub mod Shmuc
