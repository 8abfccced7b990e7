-- ===== src/Processes/Tests.antt =====
-- Tests of src/phono_console/processes.py, and the properties at a concrete child.
use phono_console.Base.{
  ℕ, zero, suc, ◌+◌, ◌-◌, ◌*◌, ◌/◌, ◌%◌, ◌^◌, ◌≤◌, ◌<◌, String, ◌≡◌, refl, sym, ap, ◌∙◌, subst, ◌≢◌,
  ◌↔◌, ◌⊎◌, inl, inr, Bool, true, false, not, ◌&&◌, ◌||◌, Option, none, some, List, [], ◌∷◌, ◌++◌,
  map, arith, ltb, leb, ◌==◌, if◌then◌else◌, leb→le, ==_iff, Bool-cases, Option-cases, is_some,
  length, take, drop, length-append, length-drop, All, All-append, take-append, drop-append,
  take-append-drop, length-take, take-add, take_last, drop-append_le, drop-drop, take_last-append,
  All-take, All-drop, ℤ, pos, negsuc, pos_part, neg_part, sub_ℕ, ◌+ℤ◌, ◌-ℤ◌, ◌≤ℤ◌, leb_ℤ, ltb_ℤ,
  +ℤ_parts, -ℤ_parts, eq_of_parts, int_laws,
}
use phono_console.Processes.{
  ManagedProcess, StartWorld, new_process, start, reap, try_launch, returned, backoff_active,
  launch_failed, is_running, initial_retry,
}
use phono_console.Processes.Supervision.{start_cases, launches, AllFail}

-- Launching raises, at these times.
abbrev failing_at : ℕ → StartWorld
failing_at now = record {
  returncode = none;
  now_exit = now;
  now_test = now;
  now_failed = now;
  launch_error = some "no such file";
}

abbrev starting_at : ℕ → StartWorld
starting_at now = record (failing_at now) { launch_error = none }

-- The child has exited, a millisecond before the backoff is tested.
abbrev dead_at : ℕ → StartWorld
dead_at now = record (starting_at (now + 1)) { returncode = some (pos 1); now_exit = now }

abbrev running : ManagedProcess
running = record new_process { has_process = true }

launched_test : (start (starting_at 0) new_process).1 ≡ returned
unfolding start reap try_launch
launched_test = refl

held_back_test : (start (starting_at 600) (start (failing_at 200) new_process).0).1 ≡ backoff_active
unfolding start reap try_launch
held_back_test = refl

dead_test : (start (dead_at 600) (start (starting_at 0) new_process).0).1 ≡ backoff_active
unfolding start reap try_launch
dead_test = refl

abbrev failures : List StartWorld
failures = failing_at 200 ∷ failing_at 800 ∷ failing_at 2000 ∷ []

failures-AllFail : AllFail failures new_process
unfolding start reap try_launch phono_console.Base.Backoff.doubled
failures-AllFail = (
  record { idle = refl; due = omega arith; raises = refl },
  (
    record { idle = refl; due = omega arith; raises = refl },
    (record { idle = refl; due = omega arith; raises = refl }, tt),
  ),
)

start_cases_example :
    let (p', outcome, steps) = start (dead_at 600) running in
    let due_at = (reap (dead_at 600) running).0.next_retry_at in
    ((outcome ≡ returned)
      × (p'.has_process ≡ true)
      × (((is_running (some (pos 1)) running ≡ true) × (launches steps ≡ 0) × (p' ≡ running))
          ⊎ ((is_running (some (pos 1)) running ≡ false)
              × (due_at ≤ 601)
              × (launches steps ≡ 1)
              × (p'.retry ≡ initial_retry))))
    ⊎ ((outcome ≡ backoff_active)
        × (p'.has_process ≡ false)
        × (launches steps ≡ 0)
        × (601 < due_at))
    ⊎ ((outcome ≡ launch_failed)
        × (p'.has_process ≡ false)
        × (launches steps ≡ 1)
        × (due_at ≤ 601)
        × (is_some p'.last_error ≡ true))
start_cases_example = start_cases (dead_at 600) running
