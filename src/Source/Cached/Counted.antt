-- ===== src/Source/Cached/Counted.antt =====
-- What the counters of the runner count.
use qurbrix_hwinfo.Common.{
  ℕ, ◌+◌, ◌≤◌, ◌<◌, Bool, true, false, ◌&&◌, ◌≡◌, refl, ◌⊎◌, inl, inr, Option, List, [], ◌∷◌, ◌++◌,
  Text, text_eq, length, length-append, if◌then◌else◌, ◌==◌, leb, Option-cases, Bool-cases, arith,
}
use qurbrix_hwinfo.Source.Answer.{SourceRunner, SourceResult, CommandSpec, Timed}
use qurbrix_hwinfo.Source.Cell.{Cells, value_of, entry}
use qurbrix_hwinfo.Source.Cached.{
  State, Meters, CommandCacheKey, SourceObservation, new_state, increment, u64_range, metrics,
  get_or_init, fresh, through_cell, serve_command, key_eq, is_cacheable_command, run_command,
  read_file, read_file_bytes, canonicalize_path, glob, execute_command, execute_read, start_command,
  remaining, effective_timeout, observe, request, execute_file, execute_file_bytes,
  execute_canonicalize, execute_glob, cache_key,
}
use qurbrix_hwinfo.Source.Cached.Step.{Step, Reach}

-- How many requests were served from the cache.
abbrev pub hits : List SourceObservation → ℕ
hits [] = 0
hits (o ∷ l) = if o.cache_hit then 1 + hits l else hits l

hits-append : (a b : List SourceObservation) → hits (a ++ b) ≡ hits a + hits b
hits-append [] b = omega arith
hits-append (o ∷ a) b = ground (arith, hits-append a b)

-- Serving one request: no counter but the executions and the started commands moves, each by one at
-- most, a command is started only in an execution, and what the cache served was not executed.
abbrev Spent : Bool → Meters → Meters → Type 0
Spent hit m n =
    (n.requests ≡ m.requests)
    × (n.observations ≡ m.observations)
    × (((n.executions ≡ m.executions) × (n.commands_started ≡ m.commands_started))
        ⊎ ((hit ≡ false)
            × (n.executions ≡ increment m.executions)
            × ((n.commands_started ≡ m.commands_started)
                ⊎ (n.commands_started ≡ increment m.commands_started))))

module _ {K V : Type 0} (eq : K → K → Bool) (execute : Meters → V × Meters)
    (spent : (m : Meters) → Spent false m (execute m).1) where
  get_or_init-Spent :
      (k : K) (cells : Cells K V) (m : Meters)
      → Spent
          (get_or_init eq execute k cells m).cache_hit
          m
          (get_or_init eq execute k cells m).meters
  unfolding get_or_init
  get_or_init-Spent k cells m = elim (Option-cases (value_of eq k cells)) [
    | inl e ↦ rw (get_or_init, e) (spent m)
    | inr (w, e) ↦ rw (get_or_init, e) (refl, refl, inl (refl, refl))
  ]

module _ (inner : SourceRunner) (deadline : Option ℕ) (on : Bool) where
  execute_command-Spent :
      (command : CommandSpec) (timeout : ℕ) (m : Meters)
      → Spent false m (execute_command inner deadline on command timeout m).1
  unfolding execute_command start_command
  execute_command-Spent command timeout m =
      elim (Bool-cases (effective_timeout inner deadline on m.now timeout == 0)) [
        | inl e ↦ rw (execute_command, e) (refl, refl, inl (refl, refl))
        | inr e ↦ rw (execute_command, e) (refl, refl, inr (refl, refl, inr refl))
      ]

  execute_read-Spent :
      {V : Type 0} (late : V) (call : ℕ → Timed V) (m : Meters)
      → Spent false m (execute_read inner deadline on late call m).1
  unfolding execute_read
  execute_read-Spent late call m = elim (Option-cases (remaining inner deadline on m.now)) [
    | inl e ↦ rw (execute_read, e) (refl, refl, inr (refl, refl, inl refl))
    | inr (left, e) ↦ elim (Bool-cases (left == 0)) [
      | inl z ↦ rw (execute_read, e, z) (refl, refl, inr (refl, refl, inl refl))
      | inr z ↦ elim (Bool-cases (leb (call m.now).elapsed left)) [
        | inl w ↦ rw (execute_read, e, z, w) (refl, refl, inr (refl, refl, inl refl))
        | inr w ↦ rw (execute_read, e, z, w) (refl, refl, inr (refl, refl, inl refl))
      ]
    ]
  ]

  through_cell-Spent :
      {V : Type 0} (execute : Meters → V × Meters)
      → ((m : Meters) → Spent false m (execute m).1)
      → (key : Text) (cells : Cells Text V) (m : Meters)
      → Spent
          (through_cell inner deadline on execute key cells m).cache_hit
          m
          (through_cell inner deadline on execute key cells m).meters
  unfolding through_cell fresh
  through_cell-Spent execute spent key cells m = elim (Bool-cases on) [
    | inl e ↦
        rw (through_cell, e)
          (get_or_init-Spent text_eq execute spent key (entry text_eq key cells) m)
    | inr e ↦ rw (through_cell, e) (spent m)
  ]

  serve_command-Spent :
      (command : CommandSpec) (timeout : ℕ) (cells : Cells CommandCacheKey SourceResult)
      (m : Meters)
      → Spent
          (serve_command inner deadline on command timeout cells m).cache_hit
          m
          (serve_command inner deadline on command timeout cells m).meters
  unfolding serve_command fresh
  serve_command-Spent command timeout cells m =
      elim (Bool-cases (on && is_cacheable_command command.program)) [
        | inl e ↦
            rw (serve_command, e)
              (get_or_init-Spent key_eq (execute_command inner deadline on command timeout)
                (execute_command-Spent command timeout) (cache_key command timeout)
                (entry key_eq _ cells) m)
        | inr e ↦ rw (serve_command, e) (execute_command-Spent command timeout m)
      ]

-- The counters agree with the list of observations.
abbrev Counts : Meters → Type 0
Counts m =
    (m.requests ≡ length m.observations)
    × (m.executions + hits m.observations ≤ length m.observations)
    × (m.commands_started ≤ m.executions)

increment-small : (n : ℕ) → n + 1 < u64_range → increment n ≡ n + 1
unfolding increment
increment-small n h = omega arith

-- The sums behind one request.
counted :
    (hit : Bool) (r e c n h r' e' c' : ℕ)
    → n + 1 < u64_range
    → (r ≡ n) × (e + h ≤ n) × (c ≤ e)
    → r' ≡ increment r
    → ((e' ≡ e) × (c' ≡ c)) ⊎ ((hit ≡ false) × (e' ≡ increment e) × ((c' ≡ c) ⊎ (c' ≡ increment c)))
    → (r' ≡ n + 1) × (e' + (h + (if hit then 1 else 0)) ≤ n + 1) × (c' ≤ e')
counted true r e c n h r' e' c' small k q p = ground (arith, increment-small r)
counted false r e c n h r' e' c' small k q p =
    ground (arith, increment-small r, increment-small e, increment-small c)

observe-Counts :
    (source : Text) (started : ℕ) (hit late : Bool) (m n : Meters)
    → Spent hit (request m) n
    → length (observe source started hit late n).observations < u64_range
    → (length m.observations < u64_range) × (Counts m → Counts (observe source started hit late n))
unfolding observe
observe-Counts source started hit late m n p small = (
  omega (arith, longer),
  λ c.
      rw (length-append, hits-append, p.1)
        (counted hit _ _ _ _ _ _ _ _ (omega (arith, longer)) c p.0 p.2),
)
  where
    longer : length m.observations + 1 < u64_range
    longer = rw (length-append, p.1) at small

module _ (inner : SourceRunner) (deadline : Option ℕ) (on : Bool) where
  read-Counts :
      {V : Type 0} (execute : Meters → V × Meters)
      → ((m : Meters) → Spent false m (execute m).1)
      → (key : Text) (cells : Cells Text V) (m : Meters) (timed_out : Bool)
      → (let served = through_cell inner deadline on execute key cells (request m) in
          let after = observe key m.now served.cache_hit timed_out served.meters in
          length after.observations < u64_range
          → (length m.observations < u64_range) × (Counts m → Counts after))
  read-Counts execute spent key cells m timed_out =
      observe-Counts key m.now _ timed_out m
        (through_cell inner deadline on execute key cells (request m)).meters
        (through_cell-Spent inner deadline on execute spent key cells (request m))

  Step-Counts :
      {s t : State}
      → Step inner deadline on s t
      → length t.meters.observations < u64_range
      → (length s.meters.observations < u64_range) × (Counts s.meters → Counts t.meters)
  unfolding run_command read_file read_file_bytes canonicalize_path glob
  Step-Counts {s} (Step.ran_command command timeout) small =
      observe-Counts _ _ _ _ s.meters
        (serve_command inner deadline on command timeout s.caches.commands
          (request s.meters)).meters
        (serve_command-Spent inner deadline on command timeout s.caches.commands (request s.meters))
        small
  Step-Counts {s} (Step.loaded path) small =
      read-Counts (execute_file inner deadline on path) (execute_read-Spent inner deadline on _ _)
        path s.caches.files s.meters _ small
  Step-Counts {s} (Step.loaded_bytes path) small =
      read-Counts (execute_file_bytes inner deadline on path)
        (execute_read-Spent inner deadline on _ _) path s.caches.file_bytes s.meters _ small
  Step-Counts {s} (Step.canonicalized path) small =
      read-Counts (execute_canonicalize inner deadline on path)
        (execute_read-Spent inner deadline on _ _) path s.caches.canonical_paths s.meters _ small
  Step-Counts {s} (Step.globbed pattern) small =
      read-Counts (execute_glob inner deadline on pattern)
        (execute_read-Spent inner deadline on _ _) pattern s.caches.globs s.meters _ small
  Step-Counts {s} (Step.waited n) small = (small, λ c. c)

  Reach-Counts :
      (now : ℕ) {t : State}
      → Reach inner deadline on (new_state now) t
      → length t.meters.observations < u64_range
      → Counts t.meters
  Reach-Counts now Reach.here small = (refl, omega arith, omega arith)
  Reach-Counts now (Reach.next r st) small =
      let step = Step-Counts st small in step.1 (Reach-Counts now r step.0)

  -- After any requests, fewer than 2 ^ 64, there is one observation for each request, no more
  -- commands were started than calls executed and no more executed than requested, and the hits
  -- among the observations are at most the cache hits of the metrics.
  pub metrics-Reach :
      (now : ℕ) (t : State)
      → Reach inner deadline on (new_state now) t
      → length t.meters.observations < u64_range
      → ((metrics t.meters).requests ≡ length (metrics t.meters).observations)
        × ((metrics t.meters).commands_started ≤ (metrics t.meters).executions)
        × ((metrics t.meters).executions ≤ (metrics t.meters).requests)
        × (hits (metrics t.meters).observations ≤ (metrics t.meters).cache_hits)
  unfolding metrics
  metrics-Reach now t r small =
      let c = Reach-Counts now r small in (c.0, c.2, omega (arith, c), omega (arith, c))
