-- ===== src/Controller/Tests.antt =====
-- Tests of `Controller.tick` (src/phono_console/controller.py), and the properties at the console of
-- Example.
use phono_console.Base.{
  ◌≡◌, refl, ◌≢◌, ◌⊎◌, inl, true, false, ◌&&◌, none, some, [], ◌∷◌, arith, is_some, pos, negsuc,
  ◌-ℤ◌,
}
use phono_console.Policy.{
  idle, phono, is_downstairs, is_physical, distribution_confirmed, reduce_routing,
}
use phono_console.Detector.{update, candidate, boundary, force_active}
use phono_console.Controller.{Controller, Environment}
use phono_console.Controller.Example.{settings, fresh, spinning, downstairs_ready, enters, is_new}
use phono_console.Controller.Sense.{sense, detect, needle_drop, signal_present, preactivate}
use phono_console.Controller.Modes.{modes, stick, inherits}
use phono_console.Controller.Bluetooth.{listen}
use phono_console.Controller.Distribution.{
  Distribution, distribute, distribution_ready, select_source, pursue, should_prepare,
}
use phono_console.Controller.Decide.{decide, reduced, observe, latch, leave, enter}
use phono_console.Controller.Commit.{commit, switch, record_route, status_of}
use phono_console.Controller.Tick.{course, tick, run}
use phono_console.Controller.Reported.{last_call, tick_reported}
use phono_console.Controller.Safety.{tick_entering, run-distributed, EverAvailable, on_distributed}
use phono_console.Controller.Priority.{tick_phono_first, tick_dead_capture}
use phono_console.Controller.Stickiness.{Wanted, pursue_retries}

-- The capture has failed, and the same with a device that cannot be opened.
abbrev capture_dead : Environment
capture_dead = record downstairs_ready { level = none }

abbrev device_busy : Environment
device_busy = record downstairs_ready { apply_error = λ route. some "device busy" }

-- Downstairs has no stream and its start raises.
abbrev start_fails : Environment
start_fails = record downstairs_ready {
  distribution_available = false;
  start_error = some "no connection";
}

needle_drop_test :
    (sense settings (record downstairs_ready { peak = some (negsuc 9) }) 100 fresh).1.phono_active
    ≡ true
unfolding sense detect needle_drop signal_present update candidate boundary force_active ◌-ℤ◌
needle_drop_test = refl

spinning_active : (course settings downstairs_ready 100 spinning).sensing.phono_active ≡ true
unfolding course sense detect needle_drop signal_present update candidate boundary ◌-ℤ◌
spinning_active = refl

spinning_present :
    (course settings downstairs_ready 100 spinning).sensing.phono_signal_present ≡ true
unfolding course sense detect needle_drop signal_present update candidate boundary ◌-ℤ◌
spinning_present = refl

tick_entering_example :
    (true ≡ true)
    × (is_downstairs (course settings downstairs_ready 100 spinning).modes.output_mode ≡ true)
    × (is_physical (course settings downstairs_ready 100 spinning).distribution.selected_source
        ≡ true)
    × (((true && (course settings downstairs_ready 100 spinning).distribution.can_start) ≡ false)
        ⊎ (downstairs_ready.prepared ≡ inl true))
tick_entering_example = tick_entering settings downstairs_ready 100 spinning enters is_new

tick_phono_first_example :
    ((tick settings downstairs_ready 100 spinning).1.source ≡ phono)
    ⊎ (((tick settings downstairs_ready 100 spinning).1.route ≡ idle)
        × (is_some (tick settings downstairs_ready 100 spinning).0.last_route_error ≡ true))
tick_phono_first_example =
    tick_phono_first settings downstairs_ready 100 spinning spinning_active spinning_present

tick_dead_capture_example :
    ((tick settings capture_dead 100 spinning).1.source ≢ phono)
    × ((tick settings capture_dead 100 spinning).1.phono_active ≡ false)
tick_dead_capture_example = tick_dead_capture settings capture_dead 100 spinning refl

tick_reported_example :
    (last_call (tick settings device_busy 100 spinning).2
      ≡ some (tick settings device_busy 100 spinning).1.route)
    × (((tick settings device_busy 100 spinning).0.last_route_error ≡ none)
        ⊎ ((tick settings device_busy 100 spinning).1.route ≡ idle))
tick_reported_example = tick_reported settings device_busy 100 spinning refl

ends_distributed :
    on_distributed (run settings ((downstairs_ready, 100) ∷ []) spinning).route ≡ true
unfolding run tick course sense detect needle_drop signal_present preactivate modes stick inherits
    listen distribute distribution_ready select_source pursue decide reduced observe latch leave
    enter commit switch record_route status_of update candidate boundary reduce_routing
    distribution_confirmed ◌-ℤ◌
ends_distributed = refl

run-distributed_example : EverAvailable ((downstairs_ready, 100) ∷ [])
run-distributed_example =
    run-distributed settings ((downstairs_ready, 100) ∷ []) spinning refl ends_distributed

abbrev wanted : Distribution
wanted = record {
  available = false;
  selected_source = phono;
  capable = true;
  stream_healthy = false;
  can_start = true;
}

wanted-Wanted : Wanted wanted
wanted-Wanted = record { unavailable = refl; capable = refl; can_start = refl }

-- A start has been asked for at 100.
abbrev asked : Controller
asked = record spinning {
  distribution_pending_source = some phono;
  distribution_pending_since = some (pos 100);
}

due_test : should_prepare settings 100 phono spinning ≡ true
unfolding should_prepare
due_test = refl

pursue_retries_example :
    should_prepare settings 101 phono (pursue settings start_fails 100 true wanted spinning).0
    ≡ true
pursue_retries_example =
    pursue_retries settings start_fails 100 101 wanted spinning wanted-Wanted refl refl due_test
      (omega arith)
