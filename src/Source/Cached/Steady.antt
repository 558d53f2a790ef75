-- ===== src/Source/Cached/Steady.antt =====
-- Without a deadline, the cache cannot be told from the runner beneath it, while that one is steady.
use qurbrix_hwinfo.Common.{ℕ, ◌≡◌, some, Text, text_eq}
use qurbrix_hwinfo.Source.Answer.{SourceRunner, SourceResult}
use qurbrix_hwinfo.Source.Cell.{Cells, value_of}
use qurbrix_hwinfo.Source.Cached.{read_file}
use qurbrix_hwinfo.Source.Cached.Step.{Step}

module _ (inner : SourceRunner) where
  -- A path is answered the same at every instant.
  abbrev pub IsSteady : Type 0
  IsSteady =
      (t u : ℕ) (path : Text) → (inner.read_file t path).result ≡ (inner.read_file u path).result

  -- The answer beneath.
  abbrev pub answer : Text → SourceResult
  answer path = (inner.read_file 0 path).result

  abbrev Truthful : Cells Text SourceResult → Type 0
  Truthful cells =
      (path : Text) (v : SourceResult) → value_of text_eq path cells ≡ some v → v ≡ answer path
