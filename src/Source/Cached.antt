-- ===== src/Source/Cached.antt =====
-- crates/hw-source/src/cached.rs: the runner that asks each source once, within a deadline. A
-- request is served to its end before the next; `Instant` and `Duration` are in nanoseconds, and the
-- counters are 64 bits wide. The struct's fields are in two groups, `Caches` and `Meters`; an
-- execution reaches the second only.
pub mod Step
pub mod Kept
pub mod Counted
pub mod Steady
use qurbrix_hwinfo.Common.{
  ℕ, ◌+◌, ◌-◌, ◌/◌, ◌%◌, min, max, Bool, true, false, not, ◌&&◌, ◌||◌, Option, none, some, List, [],
  ◌∷◌, ◌++◌, Text, codes, text_eq, split, is_empty, is_none, any, retain, if◌then◌else◌, ◌==◌, leb,
  unwrap_or,
}
use qurbrix_hwinfo.Source.Answer.{
  SourceErrorKind, SourceResult, SourceBytesResult, GlobResult, CommandSpec, Timed, SourceRunner,
  error, bytes_error, display_name, command_eq, is_timeout,
}
use qurbrix_hwinfo.Source.Cell.{Cells, value_of, entry, fill}

pub record SourceObservation : Type 0 where
  pub source : Text
  pub duration_micros : ℕ
  pub cache_hit : Bool
  pub timed_out : Bool

pub record CommandCacheKey : Type 0 where
  pub command : CommandSpec
  pub timeout_millis : ℕ

pub record Caches : Type 0 where
  pub commands : Cells CommandCacheKey SourceResult
  pub files : Cells Text SourceResult
  pub file_bytes : Cells Text SourceBytesResult
  pub canonical_paths : Cells Text SourceResult
  pub globs : Cells Text GlobResult

pub record Meters : Type 0 where
  pub requests : ℕ
  pub executions : ℕ
  pub commands_started : ℕ
  pub active_commands : ℕ
  pub peak_commands : ℕ
  pub observations : List SourceObservation
  pub now : ℕ

pub record State : Type 0 where
  pub caches : Caches
  pub meters : Meters

pub record SourceMetrics : Type 0 where
  pub requests : ℕ
  pub executions : ℕ
  pub cache_hits : ℕ
  pub commands_started : ℕ
  pub peak_external_commands : ℕ
  pub observations : List SourceObservation

-- `CachedSourceRunner::new`, at an instant.
abbrev pub new_state : ℕ → State
new_state now = record {
  caches = record { commands = []; files = []; file_bytes = []; canonical_paths = []; globs = [] };
  meters = record {
    requests = 0;
    executions = 0;
    commands_started = 0;
    active_commands = 0;
    peak_commands = 0;
    observations = [];
    now = now;
  };
}

abbrev pub u64_range : ℕ
u64_range = 18446744073709551616

-- `fetch_add(1, …)` and `fetch_sub(1, …)`.
unfoldable pub increment : ℕ → ℕ
increment n = (n + 1) % u64_range

unfoldable pub decrement : ℕ → ℕ
decrement n = (n + (u64_range - 1)) % u64_range

-- `metrics`: the subtraction saturates.
unfoldable pub metrics : Meters → SourceMetrics
metrics m = record {
  requests = m.requests;
  executions = m.executions;
  cache_hits = m.requests - m.executions;
  commands_started = m.commands_started;
  peak_external_commands = m.peak_commands;
  observations = m.observations;
}

abbrev pub commands_with_cache : List Text
commands_with_cache =
    codes "cat"
    ∷ codes "dmidecode"
    ∷ codes "ethtool"
    ∷ codes "glxinfo"
    ∷ codes "hciconfig"
    ∷ codes "hdparm"
    ∷ codes "hwinfo"
    ∷ codes "ip"
    ∷ codes "lpstat"
    ∷ codes "lscpu"
    ∷ codes "lshw"
    ∷ codes "lsblk"
    ∷ codes "lspci"
    ∷ codes "lsusb"
    ∷ codes "modinfo"
    ∷ codes "nvidia-settings"
    ∷ codes "nvidia-smi"
    ∷ codes "pactl"
    ∷ codes "smartctl"
    ∷ codes "spd-decode"
    ∷ codes "upower"
    ∷ codes "v4l2-ctl"
    ∷ codes "xrandr"
    ∷ []

abbrev last_name : List Text → Option Text
last_name [] = none
last_name (name ∷ []) = if text_eq name (codes "..") then none else some name
last_name (a ∷ b ∷ names) = last_name (b ∷ names)

-- `Path::file_name`: the last part of a path, unless it goes up; empty parts and `.` do not count.
unfoldable pub file_name : Text → Option Text
unfolding split text_eq
file_name path =
    last_name (retain (λ part. not (is_empty part || text_eq part (codes "."))) (split b'/' path))

unfoldable pub is_cacheable_command : Text → Bool
unfolding file_name text_eq
is_cacheable_command program =
    any (text_eq (unwrap_or (file_name program) program)) commands_with_cache

-- The equality of the derived `PartialEq`.
unfoldable pub key_eq : CommandCacheKey → CommandCacheKey → Bool
unfolding command_eq
key_eq a b = command_eq a.command b.command && (a.timeout_millis == b.timeout_millis)

unfoldable pub cache_key : CommandSpec → ℕ → CommandCacheKey
cache_key command timeout = record {
  command = command;
  timeout_millis = min (timeout / 1000000) (u64_range - 1);
}

-- What came of a request on one cache.
pub record Served (K V : Type 0) : Type 0 where
  pub result : V
  pub cache_hit : Bool
  pub cells : Cells K V
  pub meters : Meters

module _ {K V : Type 0} (eq : K → K → Bool) (execute : Meters → V × Meters) where
  -- `get_or_init`, when the cell is there.
  unfoldable pub get_or_init : K → Cells K V → Meters → Served K V
  unfolding value_of fill
  get_or_init k cells m = elim (value_of eq k cells) [
    | some v ↦ record { result = v; cache_hit = true; cells = cells; meters = m }
    | none ↦ record {
      result = (execute m).0;
      cache_hit = false;
      cells = fill eq k (execute m).0 cells;
      meters = (execute m).1;
    }
  ]

  -- Without the cache.
  unfoldable pub fresh : Cells K V → Meters → Served K V
  fresh cells m = record {
    result = (execute m).0;
    cache_hit = false;
    cells = cells;
    meters = (execute m).1;
  }

abbrev pub advance : ℕ → Meters → Meters
advance elapsed m = record m { now = m.now + elapsed }

abbrev late_message : Text
late_message = codes "global scan deadline exceeded"

unfoldable pub observe : Text → ℕ → Bool → Bool → Meters → Meters
observe source started cache_hit timed_out m = record m {
  observations =
      m.observations
      ++ record {
        source = source;
        duration_micros = min ((m.now - started) / 1000) (u64_range - 1);
        cache_hit = cache_hit;
        timed_out = timed_out;
      }
        ∷ [];
}

abbrev pub request : Meters → Meters
request m = record m { requests = increment m.requests }

module _ (inner : SourceRunner) (deadline : Option ℕ) (cache_enabled : Bool) where
  unfoldable pub remaining : ℕ → Option ℕ
  remaining now = elim deadline [ none ↦ none | some d ↦ some (d - now) ]

  unfoldable pub effective_timeout : ℕ → ℕ → ℕ
  unfolding remaining
  effective_timeout now requested = elim (remaining now) [
    | none ↦ requested
    | some left ↦ min requested left
  ]

  -- `execute_command`, from the acquired permit on.
  unfoldable pub start_command : CommandSpec → ℕ → Meters → SourceResult × Meters
  unfolding increment decrement
  start_command command timeout m =
      let answer = inner.run_command m.now command timeout in
      let active = increment m.active_commands in
      (
        answer.result,
        record m {
          active_commands = decrement active;
          peak_commands = max m.peak_commands active;
          commands_started = increment m.commands_started;
          executions = increment m.executions;
          now = m.now + answer.elapsed;
        },
      )

  unfoldable pub execute_command : CommandSpec → ℕ → Meters → SourceResult × Meters
  unfolding effective_timeout start_command display_name
  execute_command command timeout m =
      if effective_timeout m.now timeout == 0
      then (error (display_name command) SourceErrorKind.timeout late_message, m)
      else start_command command (effective_timeout m.now timeout) m

  -- `execute_file` and its three siblings: a call of the inner runner, and what stands for its answer
  -- when the deadline has passed or passes first.
  unfoldable pub execute_read : {V : Type 0} → V → (ℕ → Timed V) → Meters → V × Meters
  unfolding remaining increment
  execute_read late call m =
      let counted = record m { executions = increment m.executions } in
      let answer = call m.now in
      elim (remaining m.now) [
        | none ↦ (answer.result, advance answer.elapsed counted)
        | some left ↦
            if left == 0
            then (late, counted)
            else if leb answer.elapsed left
            then (answer.result, advance answer.elapsed counted)
            else (late, advance left counted)
      ]

  unfoldable pub execute_file : Text → Meters → SourceResult × Meters
  unfolding execute_read
  execute_file path =
      execute_read (error path SourceErrorKind.timeout late_message) (λ t. inner.read_file t path)

  unfoldable pub execute_file_bytes : Text → Meters → SourceBytesResult × Meters
  unfolding execute_read
  execute_file_bytes path =
      execute_read (bytes_error path SourceErrorKind.timeout late_message)
        (λ t. inner.read_file_bytes t path)

  unfoldable pub execute_canonicalize : Text → Meters → SourceResult × Meters
  unfolding execute_read
  execute_canonicalize path =
      execute_read (error path SourceErrorKind.timeout late_message)
        (λ t. inner.canonicalize_path t path)

  unfoldable pub execute_glob : Text → Meters → GlobResult × Meters
  unfolding execute_read
  execute_glob pattern =
      execute_read (record { pattern = pattern; paths = [] }) (λ t. inner.glob t pattern)

  -- The cell of a path or a pattern is made whether the cache is in use or not.
  unfoldable pub through_cell :
      {V : Type 0} → (Meters → V × Meters) → Text → Cells Text V → Meters → Served Text V
  unfolding entry get_or_init fresh text_eq
  through_cell execute key cells m =
      if cache_enabled
      then get_or_init text_eq execute key (entry text_eq key cells) m
      else fresh text_eq execute (entry text_eq key cells) m

  unfoldable pub serve_command :
      CommandSpec
      → ℕ
      → Cells CommandCacheKey SourceResult
      → Meters
      → Served CommandCacheKey SourceResult
  unfolding entry get_or_init fresh key_eq cache_key is_cacheable_command execute_command
  serve_command command timeout cells m =
      let execute = execute_command command timeout in
      let key = cache_key command timeout in
      if cache_enabled && is_cacheable_command command.program
      then get_or_init key_eq execute key (entry key_eq key cells) m
      else fresh key_eq execute cells m

  -- The trait's five calls.
  unfoldable pub run_command : CommandSpec → ℕ → State → SourceResult × State
  unfolding serve_command observe display_name is_timeout increment
  run_command command timeout s =
      let served = serve_command command timeout s.caches.commands (request s.meters) in
      (
        served.result,
        record {
          caches = record s.caches { commands = served.cells };
          meters =
              observe (display_name command) s.meters.now served.cache_hit
                (is_timeout served.result.error_kind) served.meters;
        },
      )

  unfoldable pub read_file : Text → State → SourceResult × State
  unfolding through_cell execute_file observe is_timeout increment
  read_file path s =
      let served = through_cell (execute_file path) path s.caches.files (request s.meters) in
      (
        served.result,
        record {
          caches = record s.caches { files = served.cells };
          meters =
              observe path s.meters.now served.cache_hit (is_timeout served.result.error_kind)
                served.meters;
        },
      )

  unfoldable pub read_file_bytes : Text → State → SourceBytesResult × State
  unfolding through_cell execute_file_bytes observe is_timeout increment
  read_file_bytes path s =
      let served =
        through_cell (execute_file_bytes path) path s.caches.file_bytes (request s.meters) in
      (
        served.result,
        record {
          caches = record s.caches { file_bytes = served.cells };
          meters =
              observe path s.meters.now served.cache_hit (is_timeout served.result.error_kind)
                served.meters;
        },
      )

  unfoldable pub canonicalize_path : Text → State → SourceResult × State
  unfolding through_cell execute_canonicalize observe is_timeout increment
  canonicalize_path path s =
      let served =
        through_cell (execute_canonicalize path) path s.caches.canonical_paths (request s.meters) in
      (
        served.result,
        record {
          caches = record s.caches { canonical_paths = served.cells };
          meters =
              observe path s.meters.now served.cache_hit (is_timeout served.result.error_kind)
                served.meters;
        },
      )

  unfoldable pub glob : Text → State → GlobResult × State
  unfolding through_cell execute_glob observe increment
  glob pattern s =
      let served = through_cell (execute_glob pattern) pattern s.caches.globs (request s.meters) in
      (
        served.result,
        record {
          caches = record s.caches { globs = served.cells };
          meters = observe pattern s.meters.now served.cache_hit false served.meters;
        },
      )
