-- ===== src/Source/Fake.antt =====
-- crates/hw-source/src/runner.rs: the runner over registered answers. Its `HashMap`s are association
-- lists, the last registration first.
use qurbrix_hwinfo.Common.{
  ℕ, Bool, Option, none, some, List, [], ◌∷◌, Text, codes, text_eq, unwrap_or, if◌then◌else◌, ◌==◌,
}
use qurbrix_hwinfo.Source.Answer.{
  SourceErrorKind, SourceResult, SourceBytesResult, GlobResult, CommandSpec, Timed, SourceRunner,
  success, error, bytes_success, bytes_error, display_name, command_eq,
}

pub record FakeSourceRunner : Type 0 where
  pub commands : List (CommandSpec × SourceResult)
  pub files : List (Text × SourceResult)
  pub file_bytes : List (Text × SourceBytesResult)
  pub canonical_paths : List (Text × SourceResult)
  pub globs : List (Text × List Text)

abbrev pub new_fake : FakeSourceRunner
new_fake = record { commands = []; files = []; file_bytes = []; canonical_paths = []; globs = [] }

unfoldable pub with_command : Text → List Text → Text → FakeSourceRunner → FakeSourceRunner
unfolding display_name
with_command program args stdout self =
    let spec : CommandSpec = record { program = program; args = args } in
    record self { commands = (spec, success (display_name spec) stdout) ∷ self.commands }

unfoldable pub with_command_status :
    Text → List Text → Text → ℕ → FakeSourceRunner → FakeSourceRunner
unfolding display_name
with_command_status program args stdout exit_status self =
    let spec : CommandSpec = record { program = program; args = args } in
    record self {
      commands =
          (
            spec,
            record {
              source = display_name spec;
              stdout = stdout;
              stderr = [];
              exit_status = some exit_status;
              error_kind = if exit_status == 0 then none else some SourceErrorKind.failed;
            },
          )
          ∷ self.commands;
    }

unfoldable pub with_file : Text → Text → FakeSourceRunner → FakeSourceRunner
with_file path contents self = record self { files = (path, success path contents) ∷ self.files }

unfoldable pub with_file_bytes : Text → List ℕ → FakeSourceRunner → FakeSourceRunner
with_file_bytes path bytes self = record self {
  file_bytes = (path, bytes_success path bytes) ∷ self.file_bytes;
}

unfoldable pub with_canonical_path : Text → Text → FakeSourceRunner → FakeSourceRunner
with_canonical_path path canonical self = record self {
  canonical_paths = (path, success path canonical) ∷ self.canonical_paths;
}

unfoldable pub with_glob : Text → List Text → FakeSourceRunner → FakeSourceRunner
with_glob pattern paths self = record self { globs = (pattern, paths) ∷ self.globs }

-- `HashMap::get`.
unfoldable pub get_by {ℓ κ} : {K : Type ℓ} {V : Type κ} → (K → Bool) → List (K × V) → Option V
get_by is_key [] = none
get_by is_key ((k, v) ∷ entries) = if is_key k then some v else get_by is_key entries

unfoldable pub fake_command : FakeSourceRunner → CommandSpec → SourceResult
unfolding get_by command_eq display_name
fake_command self command =
    unwrap_or (get_by (command_eq command) self.commands)
      (error (display_name command) SourceErrorKind.missing (codes "fake command not registered"))

unfoldable pub fake_file : FakeSourceRunner → Text → SourceResult
unfolding get_by text_eq
fake_file self path =
    unwrap_or (get_by (text_eq path) self.files)
      (error path SourceErrorKind.missing (codes "fake file not registered"))

unfoldable pub fake_file_bytes : FakeSourceRunner → Text → SourceBytesResult
unfolding get_by text_eq
fake_file_bytes self path =
    unwrap_or (get_by (text_eq path) self.file_bytes)
      (bytes_error path SourceErrorKind.missing (codes "fake file not registered"))

unfoldable pub fake_canonicalize : FakeSourceRunner → Text → SourceResult
unfolding get_by text_eq
fake_canonicalize self path =
    unwrap_or (get_by (text_eq path) self.canonical_paths)
      (error path SourceErrorKind.missing (codes "fake canonical path not registered"))

unfoldable pub fake_glob : FakeSourceRunner → Text → GlobResult
unfolding get_by text_eq
fake_glob self pattern = record {
  pattern = pattern;
  paths = unwrap_or (get_by (text_eq pattern) self.globs) [];
}

-- An answer that is there at once.
abbrev at_once {ℓ} : {R : Type ℓ} → R → Timed R
at_once r = record { result = r; elapsed = 0 }

-- The `SourceRunner` of the registered answers.
unfoldable pub fake_runner : FakeSourceRunner → SourceRunner
unfolding fake_command fake_file fake_file_bytes fake_canonicalize fake_glob
fake_runner self = record {
  run_command = λ _ command _. at_once (fake_command self command);
  read_file = λ _ path. at_once (fake_file self path);
  read_file_bytes = λ _ path. at_once (fake_file_bytes self path);
  canonicalize_path = λ _ path. at_once (fake_canonicalize self path);
  glob = λ _ pattern. at_once (fake_glob self pattern);
}
