-- ===== src/Tests/Sources.antt =====
-- The cached runner over registered answers.
use qurbrix_hwinfo.Common.{◌≡◌, refl, true, ◌≤◌, ◌<◌, none, some, [], ◌∷◌, codes, length, arith}
use qurbrix_hwinfo.Source.Answer.{SourceRunner, CommandSpec, success}
use qurbrix_hwinfo.Source.Fake.{FakeSourceRunner, new_fake, with_command, with_file, fake_runner}
use qurbrix_hwinfo.Source.Cached.{
  State, new_state, run_command, read_file, metrics, is_cacheable_command, u64_range,
}
use qurbrix_hwinfo.Source.Cached.Step.{Step, Reach}
use qurbrix_hwinfo.Source.Cached.Kept.{read_file-again, run_command-again}
use qurbrix_hwinfo.Source.Cached.Counted.{metrics-Reach, hits}

abbrev registered : FakeSourceRunner
unfolding with_command with_file
registered =
    with_command (codes "lspci") (codes "-k" ∷ []) (codes "devices")
      (with_file (codes "/etc/os-release") (codes "os") new_fake)

abbrev runner : SourceRunner
unfolding fake_runner
runner = fake_runner registered

abbrev lspci : CommandSpec
lspci = record { program = codes "lspci"; args = codes "-k" ∷ [] }

found :
    (read_file runner none true (codes "/etc/os-release") (new_state 0)).0
    ≡ success (codes "/etc/os-release") (codes "os")
unfolding read_file runner registered
found = refl

read_file-again_example :
    ((read_file runner none true
        (codes "/etc/os-release")
        (run_command runner none true lspci 5000000
          (read_file runner none true (codes "/etc/os-release") (new_state 0)).1).1).0
      ≡ (read_file runner none true (codes "/etc/os-release") (new_state 0)).0)
    × ((read_file runner none true
          (codes "/etc/os-release")
          (run_command runner none true lspci 5000000
            (read_file runner none true
              (codes "/etc/os-release")
              (new_state 0)).1).1).1.meters.executions
        ≡ (run_command runner none true lspci 5000000
            (read_file runner none true
              (codes "/etc/os-release")
              (new_state 0)).1).1.meters.executions)
read_file-again_example =
    read_file-again runner none (codes "/etc/os-release") (new_state 0)
      (run_command runner none true lspci 5000000
        (read_file runner none true (codes "/etc/os-release") (new_state 0)).1).1
      (Reach.next Reach.here (Step.ran_command lspci 5000000))

cacheable : is_cacheable_command (codes "/usr/bin/lspci") ≡ true
unfolding is_cacheable_command
cacheable = refl

bare : is_cacheable_command lspci.program ≡ true
unfolding is_cacheable_command
bare = refl

run_command-again_example :
    ((run_command runner none true lspci 5000000
        (run_command runner none true lspci 5000000 (new_state 0)).1).0
      ≡ (run_command runner none true lspci 5000000 (new_state 0)).0)
    × ((run_command runner none true lspci 5000000
          (run_command runner none true lspci 5000000 (new_state 0)).1).1.meters.executions
        ≡ (run_command runner none true lspci 5000000 (new_state 0)).1.meters.executions)
run_command-again_example =
    run_command-again runner none lspci 5000000 (new_state 0)
      (run_command runner none true lspci 5000000 (new_state 0)).1 bare Reach.here

-- A command past the deadline is neither executed nor served from the cache, and counts as a hit.
abbrev refused : State
unfolding run_command
refused = (run_command runner (some 0) true lspci 5000000 (new_state 0)).1

uncounted : ((metrics refused.meters).cache_hits ≡ 1) × (hits refused.meters.observations ≡ 0)
unfolding metrics refused runner
uncounted = (refl, refl)

small : length refused.meters.observations < u64_range
unfolding refused runner
small = omega arith

metrics-Reach_example :
    ((metrics refused.meters).requests ≡ length (metrics refused.meters).observations)
    × ((metrics refused.meters).commands_started ≤ (metrics refused.meters).executions)
    × ((metrics refused.meters).executions ≤ (metrics refused.meters).requests)
    × (hits (metrics refused.meters).observations ≤ (metrics refused.meters).cache_hits)
unfolding refused
metrics-Reach_example =
    metrics-Reach runner (some 0) true 0 refused
      (Reach.next Reach.here (Step.ran_command lspci 5000000)) small
