-- ===== src/Source/Cached/Step.antt =====
-- The runner's requests as steps, in whatever order they come, with time between them.
use qurbrix_hwinfo.Common.{ℕ, Bool, Option, Text}
use qurbrix_hwinfo.Source.Answer.{SourceRunner, CommandSpec}
use qurbrix_hwinfo.Source.Cached.{
  State, advance, run_command, read_file, read_file_bytes, canonicalize_path, glob,
}

module _ (inner : SourceRunner) (deadline : Option ℕ) (cache_enabled : Bool) where
  pub data Step (s : State) : State → Type 0 where
    ran_command :
        (command : CommandSpec) (timeout : ℕ)
        → Step s (run_command inner deadline cache_enabled command timeout s).1
    loaded : (path : Text) → Step s (read_file inner deadline cache_enabled path s).1
    loaded_bytes : (path : Text) → Step s (read_file_bytes inner deadline cache_enabled path s).1
    canonicalized : (path : Text) → Step s (canonicalize_path inner deadline cache_enabled path s).1
    globbed : (pattern : Text) → Step s (glob inner deadline cache_enabled pattern s).1
    waited : (n : ℕ) → Step s (record s { meters = advance n s.meters })

  pub data Reach (s : State) : State → Type 0 where
    here : Reach s s
    next : {t u : State} → Reach s t → Step t u → Reach s u
