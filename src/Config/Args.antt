-- ===== src/Config/Args.antt =====
-- `ArgParser::parse` of src/utils/arg_parser.rs: the arguments override the configuration file. The
-- arguments are what `clap` has read; the value of a wrong kind ends the program before.
use Prim.Native.Nat.{ℕ, zero, suc, ◌+◌, ◌-◌, ◌^◌, ◌≤◌, ◌<◌}
use Prim.Native.String.{String}
use rep_cxl.Prelude.{
  if◌then◌else◌, ltb, ◌≡◌, refl, ap, ◌↔◌, Bool, Option, none, some, List, length, arith,
}
use mathlib.Core.Option.{some-injective}
use rep_cxl.Wcc.{max_processes}
use rep_cxl.Config.{ℤ, pos, negsuc, Config, ConfigError, validate}
use rep_cxl.Config.Processes.{count_from}
use rep_cxl.Config.Checks.{Member, NotEmpty, CoreAllowed, validate_iff}

-- The arguments that were given. The file is what `from_file` gives for its path, `none` an error.
pub record Args (F : Type 0) : Type 0 where
  pub config : Option (Option (Config F))
  pub startup_delay : Option ℕ
  pub round_time : Option ℕ
  pub id : Option ℕ
  pub processes : Option ℕ
  pub algorithm : Option String
  pub pipeline : Option Bool
  pub read_retries : Option ℕ
  pub core_affinity : Option ℕ

abbrev pub get_or {ℓ} : {A : Type ℓ} → Option A → A → A
get_or none a = a
get_or (some b) a = b

-- `id as i32` of a `u32`
abbrev pub as_i32 : ℕ → ℤ
as_i32 n = if ltb n (2 ^ 31) then pos n else negsuc (2 ^ 32 - n - 1)

abbrev pub id_or : Option ℕ → ℤ → ℤ
id_or none i = i
id_or (some n) i = as_i32 n

abbrev pub processes_or : Option ℕ → List ℕ → List ℕ
processes_or none ps = ps
processes_or (some n) ps = count_from 0 n

abbrev pub core_or : Option ℕ → Option ℕ → Option ℕ
core_or none core = core
core_or (some n) core = some n

module _ {F : Type 0} where
  unfoldable pub override_with : Args F → Config F → Config F
  override_with a c = record c {
    round_time = get_or a.round_time c.round_time;
    startup_delay = get_or a.startup_delay c.startup_delay;
    id = id_or a.id c.id;
    algorithm = get_or a.algorithm c.algorithm;
    pipeline = get_or a.pipeline c.pipeline;
    processes = processes_or a.processes c.processes;
    read_retries = get_or a.read_retries c.read_retries;
    core_affinity = core_or a.core_affinity c.core_affinity;
  }

  -- The configuration of the file, or the one there was.
  abbrev pub base : Option (Option (Config F)) → Config F → Option (Config F)
  base none c = some c
  base (some file) c = file

  abbrev pub if_valid : Option ConfigError → Config F → Option (Config F)
  if_valid none c = some c
  if_valid (some e) c = none

  abbrev pub checked : Args F → Option (Config F) → Option (Config F)
  unfolding override_with validate
  checked a none = none
  checked a (some c) = if_valid (validate (override_with a c)) (override_with a c)

  -- The configuration, or none if the program ends with an error.
  unfoldable pub parse : Args F → Config F → Option (Config F)
  unfolding checked
  parse a c = checked a (base a.config c)

count_from-length : (a n : ℕ) → length (count_from a n) ≡ n
count_from-length a zero = refl
count_from-length a (suc n) = ap suc (count_from-length (suc a) n)

count_from-Member : (a n i : ℕ) → Member i (count_from a n) ↔ ((a ≤ i) × (i < a + n))
count_from-Member a zero i = (λ m. absurd m, λ h. omega arith)
count_from-Member a (suc n) i = let rest = count_from-Member (suc a) n i in ground (arith, rest)

module _ {F : Type 0} where
  if_valid-some :
      (e : Option ConfigError) (c d : Config F) → if_valid e c ≡ some d → (e ≡ none) × (c ≡ d)
  if_valid-some none c d h = (refl, some-injective _ _ h)
  if_valid-some (some e) c d h = cc

  module _ (a : Args F) (c : Config F) (i n : ℕ) (given : a.id ≡ some i)
      (many : a.processes ≡ some n) (small : i < 2 ^ 32) where
    -- The conditions on the arguments and on the configuration under them.
    abbrev Fine : Type 0
    Fine =
        (i < n)
        × (n ≤ max_processes)
        × NotEmpty c.mem_nodes
        × CoreAllowed (core_or a.core_affinity c.core_affinity)

    valid-Fine : validate (override_with a c) ≡ none → Fine
    unfolding override_with
    valid-Fine h =
        let (p, (same, listed, few, nodes, core)) = (validate_iff (override_with a c)).0 h in
        let named : as_i32 i ≡ pos p = rw given at same in
        let own : i ≡ p = ground (arith, named) in
        let place = (count_from-Member 0 n p).0 (rw many at listed) in
        let size = count_from-length 0 n in
        (omega (arith, own, place), omega (arith, size, rw many at few), nodes, core)

    Fine-valid : Fine → validate (override_with a c) ≡ none
    unfolding override_with
    Fine-valid (below, few, nodes, core) =
        let named : as_i32 i ≡ pos i = ground (arith, below, few) in
        let place = (count_from-Member 0 n i).1 (omega arith, omega (arith, below)) in
        let size = count_from-length 0 n in
        (validate_iff (override_with a c)).1
          (i, (rw given named, rw many place, rw many (omega (arith, size, few)), nodes, core))

  -- With an identifier and a number of processes as arguments, below 2 ^ 32, over the configuration
  -- `c` of the file or of the defaults: `parse` gives a configuration exactly if the identifier is
  -- below the number, the number is at most the maximum, `c` has a memory node, and the core that
  -- then counts is not core 0; it is `c` with the arguments in place of its values.
  pub parse_iff :
      (a : Args F) (before c d : Config F) (i n : ℕ)
      → base a.config before ≡ some c
      → a.id ≡ some i
      → a.processes ≡ some n
      → i < 2 ^ 32
      → (parse a before ≡ some d) ↔ (
          (override_with a c ≡ d)
          × (i < n)
          × (n ≤ max_processes)
          × NotEmpty c.mem_nodes
          × CoreAllowed (core_or a.core_affinity c.core_affinity))
  unfolding parse checked
  parse_iff a before c d i n from given many small = rw from (
    (λ h.
        let (valid, same) = if_valid-some (validate (override_with a c)) (override_with a c) d h in
        let (below, few, nodes, core) = valid-Fine a c i n given many small valid in
        (same, below, few, nodes, core)),
    (λ (same, below, few, nodes, core).
        let valid = Fine-valid a c i n given many small (below, few, nodes, core) in
        rw valid (ap some same)),
  )
