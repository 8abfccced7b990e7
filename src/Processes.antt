-- ===== src/Processes.antt =====
-- src/phono_console/processes.py: `ManagedProcess`, a supervised child process with restart
-- backoff.
--
-- Times are naturals in milliseconds of the monotonic clock. The child and its launcher are
-- outside: `StartWorld` and `StopWorld` hold what their calls return during one operation.
pub mod Supervision
pub mod Tests
use phono_console.Base.{
  ℕ, ◌+◌, String, Bool, true, false, not, ◌&&◌, Option, none, some, List, [], ◌∷◌, ◌++◌, ltb,
  if◌then◌else◌, is_some, ℤ,
}
use phono_console.Base.Backoff.{doubled}

-- `_last_error`: the exit of the child, or the launcher's message.
pub data Failure : Type 0 where
  exited : ℤ → Failure
  not_launched : String → Failure

pub record ManagedProcess : Type 0 where
  -- A child has been launched and not been given up.
  pub has_process : Bool
  pub next_retry_at : ℕ
  pub retry : ℕ
  pub last_error : Option Failure

-- 0.5 s and 30 s.
abbrev pub initial_retry : ℕ
initial_retry = 500

abbrev pub max_retry : ℕ
max_retry = 30000

abbrev pub new_process : ManagedProcess
new_process = record {
  has_process = false;
  next_retry_at = 0;
  retry = initial_retry;
  last_error = none;
}

pub record StartWorld : Type 0 where
  -- The child's return code; `none` while it runs.
  pub returncode : Option ℤ
  -- The clock where the exit is noted, where the backoff is tested and where a launch has failed.
  pub now_exit : ℕ
  pub now_test : ℕ
  pub now_failed : ℕ
  -- The launch: a message if it raises.
  pub launch_error : Option String

pub data Event : Type 0 where
  process_exited process_started start_failed process_stopped process_killed : Event

pub data Step : Type 0 where
  emit : Event → Step
  launch terminate kill : Step

pub data Outcome : Type 0 where
  returned backoff_active launch_failed : Outcome

abbrev pub is_running : Option ℤ → ManagedProcess → Bool
is_running returncode p = p.has_process && not (is_some returncode)

-- Lines 82-91: a child that has exited is given up.
unfoldable pub reap : StartWorld → ManagedProcess → ManagedProcess × List Step
reap w p =
    if p.has_process
    then elim w.returncode [
      | none ↦ (p, [])
      | some code ↦ (
        record {
          has_process = false;
          next_retry_at = w.now_exit + p.retry;
          retry = doubled max_retry p.retry;
          last_error = some (exited code);
        },
        emit process_exited ∷ [],
      )
    ]
    else (p, [])

-- Lines 92-111
unfoldable pub try_launch : StartWorld → ManagedProcess → ManagedProcess × Outcome × List Step
try_launch w p =
    if ltb w.now_test p.next_retry_at then (p, backoff_active, []) else elim w.launch_error [
      | some message ↦ (
        record {
          has_process = p.has_process;
          next_retry_at = w.now_failed + p.retry;
          retry = doubled max_retry p.retry;
          last_error = some (not_launched message);
        },
        launch_failed,
        launch ∷ emit start_failed ∷ [],
      )
      | none ↦ (
        record { has_process = true; next_retry_at = 0; retry = initial_retry; last_error = none },
        returned,
        launch ∷ emit process_started ∷ [],
      )
    ]

unfoldable pub start : StartWorld → ManagedProcess → ManagedProcess × Outcome × List Step
start w p =
    if is_running w.returncode p
    then (p, returned, [])
    else (let (p', noted) = reap w p in
        let (p'', outcome, steps) = try_launch w p' in (p'', outcome, noted ++ steps))

pub record StopWorld : Type 0 where
  pub returncode : Option ℤ
  -- The child ends within the stop timeout.
  pub ends_in_time : Bool

unfoldable pub stop : StopWorld → ManagedProcess → ManagedProcess × List Step
stop w p =
    if p.has_process
    then (
      new_process,
      (if is_some w.returncode
            then []
            else terminate ∷ (if w.ends_in_time then [] else kill ∷ emit process_killed ∷ []))
          ++ (emit process_stopped ∷ []),
    )
    else (p, [])
