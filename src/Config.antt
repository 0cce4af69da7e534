-- ===== src/Config.antt =====
-- src/config.rs: the configuration. The file is read and parsed by the `toml` package; `F` is the
-- type of `f64`, of which only `read_offset` has values.
pub mod Checks
pub mod Processes
pub mod Args
use Prim.Native.String.{String}
use rep_cxl.Prelude.{
  ℕ, suc, ◌*◌, ◌-◌, ◌^◌, ltb, ◌==◌, if◌then◌else◌, not, Bool, true, false, Option, none, some, List,
  [], ◌∷◌, length, contains,
}
use rep_cxl.Wcc.{max_processes}

-- An `i32`.
pub data ℤ : Type 0 where
  pos : ℕ → ℤ
  negsuc : ℕ → ℤ

-- `as u32`
abbrev pub as_u32 : ℤ → ℕ
as_u32 (pos n) = n
as_u32 (negsuc n) = 2 ^ 32 - suc n

-- `as usize`
abbrev pub as_usize : ℤ → ℕ
as_usize (pos n) = n
as_usize (negsuc n) = 2 ^ 64 - suc n

abbrev pub is_negative : ℤ → Bool
is_negative (pos n) = false
is_negative (negsuc n) = true

pub record Config (F : Type 0) : Type 0 where
  pub mem_nodes : List String
  pub mem_size : ℕ
  pub chunk_size : ℕ
  pub startup_delay : ℕ
  pub round_time : ℕ
  pub id : ℤ
  pub processes : List ℕ
  pub algorithm : String
  pub pipeline : Bool
  pub read_retries : ℕ
  pub read_offset : Option F
  pub core_affinity : Option ℕ

-- The error messages of `validate`.
pub data ConfigError : Type 0 where
  id_missing id_not_in_processes too_many_processes no_memory_node core_zero : ConfigError

abbrev pub is_empty {ℓ} : {A : Type ℓ} → List A → Bool
is_empty [] = true
is_empty (x ∷ xs) = false

-- `core == 0` of a core that is given
abbrev pub is_core_zero : Option ℕ → Bool
is_core_zero none = false
is_core_zero (some core) = core == 0

module _ {F : Type 0} where
  unfoldable pub default : Config F
  default = record {
    mem_nodes = [];
    mem_size = 1024 * 1024;
    chunk_size = 64;
    startup_delay = 1000000000;
    round_time = 100000;
    id = negsuc 0;
    processes = 0 ∷ [];
    algorithm = "monster";
    pipeline = false;
    read_retries = 0;
    read_offset = none;
    core_affinity = none;
  }

  -- The first error, or none.
  unfoldable pub validate : Config F → Option ConfigError
  validate c =
      if is_negative c.id
      then some id_missing
      else if not (contains c.processes (as_u32 c.id))
      then some id_not_in_processes
      else if ltb max_processes (length c.processes)
      then some too_many_processes
      else if is_empty c.mem_nodes
      then some no_memory_node
      else if is_core_zero c.core_affinity
      then some core_zero
      else none
