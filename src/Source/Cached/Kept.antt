-- ===== src/Source/Cached/Kept.antt =====
-- A source that was asked once is not asked again.
use qurbrix_hwinfo.Common.{
  ℕ, Bool, true, false, ◌&&◌, ◌≡◌, refl, ap, ◌∙◌, Option, some, List, [], ◌∷◌, Text, text_eq,
  text_eq_refl, Option-cases, Bool-cases, inl, inr, arith,
}
use qurbrix_hwinfo.Source.Answer.{SourceRunner, SourceResult, CommandSpec, texts_eq, command_eq}
use qurbrix_hwinfo.Source.Cell.{
  Cells, value_of, entry, value_of-entry, value_of-fill, value_of-fill_other,
}
use qurbrix_hwinfo.Source.Cached.{
  State, Caches, Meters, CommandCacheKey, get_or_init, fresh, through_cell, serve_command, key_eq,
  is_cacheable_command, run_command, read_file, read_file_bytes, canonicalize_path, glob,
  execute_file, execute_command, cache_key, observe, request,
}
use qurbrix_hwinfo.Source.Cached.Step.{Step, Reach}

module _ {K V : Type 0} (eq : K → K → Bool) where
  -- Whatever the first map holds, the second holds too.
  abbrev Extends : Cells K V → Cells K V → Type 0
  Extends a b = (k : K) (v : V) → value_of eq k a ≡ some v → value_of eq k b ≡ some v

  entry-Extends : (k : K) (cells : Cells K V) → Extends cells (entry eq k cells)
  entry-Extends k cells j v h = value_of-entry eq j k cells ∙ h

  module _ (execute : Meters → V × Meters) where
    get_or_init-Extends :
        (k : K) (cells : Cells K V) (m : Meters)
        → Extends cells (get_or_init eq execute k cells m).cells
    unfolding get_or_init
    get_or_init-Extends k cells m j v h = elim (Option-cases (value_of eq k cells)) [
      | inl e ↦ rw (get_or_init, e) (value_of-fill_other eq j k v (execute m).0 cells h e)
      | inr (w, e) ↦ rw (get_or_init, e) h
    ]

    -- Afterwards the cell holds the result.
    get_or_init-holds :
        (k : K) (cells : Cells K V) (m : Meters)
        → eq k k ≡ true
        → value_of eq k (get_or_init eq execute k (entry eq k cells) m).cells
          ≡ some (get_or_init eq execute k (entry eq k cells) m).result
    unfolding get_or_init
    get_or_init-holds k cells m r = elim (Option-cases (value_of eq k (entry eq k cells))) [
      | inl e ↦ rw (get_or_init, e) (value_of-fill eq k (execute m).0 cells r)
      | inr (w, e) ↦ rw (get_or_init, e) e
    ]

    -- A cell that holds a value answers with it, and nothing is executed.
    get_or_init-hit :
        (k : K) (v : V) (cells : Cells K V) (m : Meters)
        → value_of eq k cells ≡ some v
        → ((get_or_init eq execute k (entry eq k cells) m).result ≡ v)
          × ((get_or_init eq execute k (entry eq k cells) m).meters ≡ m)
    unfolding get_or_init
    get_or_init-hit k v cells m h = rw (get_or_init, value_of-entry eq k k cells, h) (refl, refl)

module _ (inner : SourceRunner) (deadline : Option ℕ) where
  through_cell-Extends :
      {V : Type 0} (on : Bool) (execute : Meters → V × Meters) (key : Text) (cells : Cells Text V)
      (m : Meters)
      → Extends text_eq cells (through_cell inner deadline on execute key cells m).cells
  unfolding through_cell fresh
  through_cell-Extends true execute key cells m j v h =
      get_or_init-Extends text_eq execute key (entry text_eq key cells) m j v
        (entry-Extends text_eq key cells j v h)
  through_cell-Extends false execute key cells m j v h = entry-Extends text_eq key cells j v h

  serve_command-Extends :
      (on : Bool) (command : CommandSpec) (timeout : ℕ) (cells : Cells CommandCacheKey SourceResult)
      (m : Meters)
      → Extends key_eq cells (serve_command inner deadline on command timeout cells m).cells
  unfolding serve_command fresh
  serve_command-Extends on command timeout cells m j v h =
      elim (Bool-cases (on && is_cacheable_command command.program)) [
        | inl e ↦ rw e (
            get_or_init-Extends key_eq (execute_command inner deadline on command timeout) _
              (entry key_eq _ cells) m j v (entry-Extends key_eq _ cells j v h))
        | inr e ↦ rw e h
      ]

module _ (inner : SourceRunner) (deadline : Option ℕ) (on : Bool) where
  -- A file that was read, or a command that ran, has its cell, and its cell keeps its value.
  abbrev Grew : Caches → Caches → Type 0
  Grew a b = Extends key_eq a.commands b.commands × Extends text_eq a.files b.files

  Step-Grew : {s t : State} → Step inner deadline on s t → Grew s.caches t.caches
  unfolding run_command read_file read_file_bytes canonicalize_path glob
  Step-Grew {s} (Step.ran_command command timeout) =
      (serve_command-Extends inner deadline on command timeout s.caches.commands _, λ k v h. h)
  Step-Grew {s} (Step.loaded path) = (
    λ k v h. h,
    through_cell-Extends inner deadline on (execute_file inner deadline on path) path s.caches.files
        _,
  )
  Step-Grew (Step.loaded_bytes path) = (λ k v h. h, λ k v h. h)
  Step-Grew (Step.canonicalized path) = (λ k v h. h, λ k v h. h)
  Step-Grew (Step.globbed pattern) = (λ k v h. h, λ k v h. h)
  Step-Grew (Step.waited n) = (λ k v h. h, λ k v h. h)

  Reach-Grew : {s t : State} → Reach inner deadline on s t → Grew s.caches t.caches
  Reach-Grew Reach.here = (λ k v h. h, λ k v h. h)
  Reach-Grew (Reach.next r st) =
      let before = Reach-Grew r in
      let after = Step-Grew st in
      (λ k v h. after.0 k v (before.0 k v h), λ k v h. after.1 k v (before.1 k v h))

module _ (inner : SourceRunner) (deadline : Option ℕ) where
  file_held :
      (path : Text) (s : State)
      → value_of text_eq path (read_file inner deadline true path s).1.caches.files
        ≡ some (read_file inner deadline true path s).0
  unfolding read_file through_cell
  file_held path s =
      get_or_init-holds text_eq (execute_file inner deadline true path) path s.caches.files _
        (text_eq_refl path)

  -- Once a file has been read with the cache in use, then after any further requests a read of it
  -- gives the first result, and the runner beneath is not called for it.
  pub read_file-again :
      (path : Text) (s t : State)
      → Reach inner deadline true (read_file inner deadline true path s).1 t
      → ((read_file inner deadline true path t).0 ≡ (read_file inner deadline true path s).0)
        × ((read_file inner deadline true path t).1.meters.executions ≡ t.meters.executions)
  unfolding read_file through_cell observe
  read_file-again path s t r =
      let hit =
        get_or_init-hit text_eq (execute_file inner deadline true path) path
          (read_file inner deadline true path s).0 t.caches.files (request t.meters)
          ((Reach-Grew inner deadline true r).1 path _ (file_held path s)) in
      (hit.0, ap (λ (m : Meters). m.executions) hit.1)

texts_eq_refl : (xs : List Text) → texts_eq xs xs ≡ true
unfolding texts_eq
texts_eq_refl [] = refl
texts_eq_refl (x ∷ xs) = rw (text_eq_refl x) (texts_eq_refl xs)

key_eq_refl : (k : CommandCacheKey) → key_eq k k ≡ true
unfolding key_eq command_eq
key_eq_refl k = rw (text_eq_refl k.command.program, texts_eq_refl k.command.args) (ground arith)

module _ (inner : SourceRunner) (deadline : Option ℕ) where
  command_held :
      (command : CommandSpec) (timeout : ℕ) (s : State)
      → is_cacheable_command command.program ≡ true
      → value_of key_eq
          (cache_key command timeout)
          (run_command inner deadline true command timeout s).1.caches.commands
        ≡ some (run_command inner deadline true command timeout s).0
  unfolding run_command serve_command
  command_held command timeout s c = rw c (
      get_or_init-holds key_eq (execute_command inner deadline true command timeout)
        (cache_key command timeout) s.caches.commands _ (key_eq_refl (cache_key command timeout)))

  command_hit :
      (command : CommandSpec) (timeout : ℕ) (v : SourceResult) (t : State)
      → is_cacheable_command command.program ≡ true
      → value_of key_eq (cache_key command timeout) t.caches.commands ≡ some v
      → ((run_command inner deadline true command timeout t).0 ≡ v)
        × ((run_command inner deadline true command timeout t).1.meters.executions
            ≡ t.meters.executions)
  unfolding run_command serve_command observe
  command_hit command timeout v t c h =
      let hit =
        get_or_init-hit key_eq (execute_command inner deadline true command timeout)
          (cache_key command timeout) v t.caches.commands (request t.meters) h in
      rw c (hit.0, ap (λ (m : Meters). m.executions) hit.1)

  -- Once a command of the cached programs has run, with the cache in use, then after any further
  -- requests it has its first result at the same timeout, and it is not started again.
  pub run_command-again :
      (command : CommandSpec) (timeout : ℕ) (s t : State)
      → is_cacheable_command command.program ≡ true
      → Reach inner deadline true (run_command inner deadline true command timeout s).1 t
      → ((run_command inner deadline true command timeout t).0
          ≡ (run_command inner deadline true command timeout s).0)
        × ((run_command inner deadline true command timeout t).1.meters.executions
            ≡ t.meters.executions)
  run_command-again command timeout s t c r =
      command_hit command timeout _ t c
        ((Reach-Grew inner deadline true r).0 _ _ (command_held command timeout s c))
