-- ===== src/Processes/Supervision.antt =====
-- Restart backoff and the single child of `ManagedProcess` (src/phono_console/processes.py).
use Prim.Native.Nat.{min}
use phono_console.Base.{
  ℕ, ◌+◌, ◌*◌, ◌^◌, ◌≤◌, ◌<◌, ◌≡◌, refl, ◌∙◌, ◌⊎◌, Bool, true, false, some, List, [], ◌∷◌, arith,
  if◌then◌else◌, is_some, length, ℤ,
}
use phono_console.Base.Backoff.{doubled, repeat_doubled, repeat_doubled-pow}
use phono_console.Processes.{
  ManagedProcess, new_process, StartWorld, StopWorld, Step, launch, returned, backoff_active,
  launch_failed, start, stop, reap, try_launch, is_running, initial_retry, max_retry,
}

-- The delay is kept between half a second and thirty seconds.
pub record IsPaced (p : ManagedProcess) : Type 0 where
  pub at_least : initial_retry ≤ p.retry
  pub at_most : p.retry ≤ max_retry

pub start-IsPaced : (w : StartWorld) (p : ManagedProcess) → IsPaced p → IsPaced (start w p).0
unfolding start reap try_launch doubled
start-IsPaced w p h = ground arith

pub stop-IsPaced : (w : StopWorld) (p : ManagedProcess) → IsPaced p → IsPaced (stop w p).0
unfolding stop
stop-IsPaced w p h = ground arith

abbrev pub is_launch : Step → Bool
is_launch launch = true
is_launch _ = false

abbrev pub launches : List Step → ℕ
launches [] = 0
launches (o ∷ os) = (if is_launch o then 1 else 0) + launches os

-- `start` has three ends. It returns with a child held: one that ran already, and the state is
-- as it was, or one launched once because none ran and the backoff was over, and then the delay
-- is reset. It raises because the backoff is still running, without a launch and with no child
-- held. Or its one launch raises, after the backoff was over: no child is held, and the error is
-- kept. The backoff is the one in force after an exited child has been given up.
pub start_cases :
    (w : StartWorld) (p : ManagedProcess)
    → let (p', outcome, steps) = start w p in
      let due_at = (reap w p).0.next_retry_at in
      ((outcome ≡ returned)
        × (p'.has_process ≡ true)
        × (((is_running w.returncode p ≡ true) × (launches steps ≡ 0) × (p' ≡ p))
            ⊎ ((is_running w.returncode p ≡ false)
                × (due_at ≤ w.now_test)
                × (launches steps ≡ 1)
                × (p'.retry ≡ initial_retry))))
      ⊎ ((outcome ≡ backoff_active)
          × (p'.has_process ≡ false)
          × (launches steps ≡ 0)
          × (w.now_test < due_at))
      ⊎ ((outcome ≡ launch_failed)
          × (p'.has_process ≡ false)
          × (launches steps ≡ 1)
          × (due_at ≤ w.now_test)
          × (is_some p'.last_error ≡ true))
unfolding start reap try_launch
start_cases w p = ground arith

-- A child that has died is not restarted by the call that notices it, if the clock has not moved
-- past the delay meanwhile: the call raises without a launch, and the delay has doubled.
pub start_after_exit :
    (w : StartWorld) (p : ManagedProcess) {code : ℤ}
    → p.has_process ≡ true
    → w.returncode ≡ some code
    → w.now_test < w.now_exit + p.retry
    → ((start w p).1 ≡ backoff_active)
      × (launches (start w p).2 ≡ 0)
      × ((start w p).0.retry ≡ doubled max_retry p.retry)
unfolding start reap try_launch
start_after_exit w p has dead early = ground arith

-- A failed launch that was not held back.
pub record Fails (w : StartWorld) (p : ManagedProcess) : Type 0 where
  pub idle : p.has_process ≡ false
  pub due : p.next_retry_at ≤ w.now_test
  pub raises : is_some w.launch_error ≡ true

pub start_all : List StartWorld → ManagedProcess → ManagedProcess
start_all [] p = p
start_all (w ∷ ws) p = start_all ws (start w p).0

abbrev pub AllFail : List StartWorld → ManagedProcess → Type 0
AllFail [] p = Unit
AllFail (w ∷ ws) p = Fails w p × AllFail ws (start w p).0

retry-start_failed :
    (w : StartWorld) (p : ManagedProcess)
    → Fails w p
    → (start w p).0.retry ≡ doubled max_retry p.retry
unfolding start reap try_launch
retry-start_failed w p f = ground (arith, f.idle, f.due, f.raises)

retry-start_all :
    (ws : List StartWorld) (p : ManagedProcess)
    → AllFail ws p
    → (start_all ws p).retry ≡ repeat_doubled max_retry (length ws) p.retry
unfolding start_all repeat_doubled
retry-start_all [] p h = refl
retry-start_all (w ∷ ws) p h =
    retry-start_all ws (start w p).0 h.1 ∙ rw (retry-start_failed w p h.0)

-- When a new process has failed to launch k times in a row, each time after its backoff, the delay
-- is half a second times the k-th power of two, and at most thirty seconds.
pub retry_after_failures :
    (ws : List StartWorld)
    → AllFail ws new_process
    → (start_all ws new_process).retry ≡ min (initial_retry * 2 ^ length ws) max_retry
retry_after_failures ws h =
    retry-start_all ws new_process h
    ∙ repeat_doubled-pow max_retry (length ws) initial_retry (omega arith)
