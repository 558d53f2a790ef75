-- ===== src/Source/Answer.antt =====
-- crates/hw-source/src/result.rs, command.rs and files.rs: what a source answers. Paths are texts.
use qurbrix_hwinfo.Common.{
  ℕ, Bool, true, false, ◌&&◌, Option, none, some, List, [], ◌∷◌, ◌++◌, Text, codes, text_eq, join,
  is_empty, is_none, if◌then◌else◌, ◌==◌,
}

pub data SourceErrorKind : Type 0 where
  missing permission_denied timeout failed : SourceErrorKind

-- `== Some(SourceErrorKind::Timeout)`.
unfoldable pub is_timeout : Option SourceErrorKind → Bool
is_timeout (some SourceErrorKind.timeout) = true
is_timeout _ = false

-- An exit status, as its 32 bits.
pub record SourceResult : Type 0 where
  pub source : Text
  pub stdout : Text
  pub stderr : Text
  pub exit_status : Option ℕ
  pub error_kind : Option SourceErrorKind

pub record SourceBytesResult : Type 0 where
  pub source : Text
  pub bytes : List ℕ
  pub stderr : Text
  pub error_kind : Option SourceErrorKind

pub record GlobResult : Type 0 where
  pub pattern : Text
  pub paths : List Text

-- `SourceResult::success`, `SourceResult::error` and `SourceResult::is_success`.
abbrev pub success : Text → Text → SourceResult
success source stdout = record {
  source = source;
  stdout = stdout;
  stderr = [];
  exit_status = some 0;
  error_kind = none;
}

abbrev pub error : Text → SourceErrorKind → Text → SourceResult
error source kind stderr = record {
  source = source;
  stdout = [];
  stderr = stderr;
  exit_status = none;
  error_kind = some kind;
}

unfoldable pub is_success : SourceResult → Bool
is_success r = is_none r.error_kind && elim r.exit_status [ none ↦ false | some code ↦ code == 0 ]

-- `SourceBytesResult::success`, `SourceBytesResult::error` and `SourceBytesResult::is_success`.
abbrev pub bytes_success : Text → List ℕ → SourceBytesResult
bytes_success source bytes = record {
  source = source;
  bytes = bytes;
  stderr = [];
  error_kind = none;
}

abbrev pub bytes_error : Text → SourceErrorKind → Text → SourceBytesResult
bytes_error source kind stderr = record {
  source = source;
  bytes = [];
  stderr = stderr;
  error_kind = some kind;
}

unfoldable pub bytes_is_success : SourceBytesResult → Bool
bytes_is_success r = is_none r.error_kind

pub record CommandSpec : Type 0 where
  pub program : Text
  pub args : List Text

unfoldable pub display_name : CommandSpec → Text
unfolding join
display_name command =
    if is_empty command.args
    then command.program
    else command.program ++ (codes " " ++ join (codes " ") command.args)

-- The derived `PartialEq`.
unfoldable pub texts_eq : List Text → List Text → Bool
unfolding text_eq
texts_eq [] [] = true
texts_eq [] (y ∷ ys) = false
texts_eq (x ∷ xs) [] = false
texts_eq (x ∷ xs) (y ∷ ys) = text_eq x y && texts_eq xs ys

unfoldable pub command_eq : CommandSpec → CommandSpec → Bool
unfolding texts_eq text_eq
command_eq a b = text_eq a.program b.program && texts_eq a.args b.args

-- What an answer takes: the answer, and the nanoseconds until it is there.
pub record Timed {ℓ} (R : Type ℓ) : Type ℓ where
  pub result : R
  pub elapsed : ℕ

-- The trait `SourceRunner`: what each source answers to a call at an instant.
pub record SourceRunner : Type 0 where
  pub run_command : ℕ → CommandSpec → ℕ → Timed SourceResult
  pub read_file : ℕ → Text → Timed SourceResult
  pub read_file_bytes : ℕ → Text → Timed SourceBytesResult
  pub canonicalize_path : ℕ → Text → Timed SourceResult
  pub glob : ℕ → Text → Timed GlobResult
