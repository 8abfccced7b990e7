-- ===== src/Controller/Example.antt =====
-- A console for the tests of src/phono_console/controller.py: a record plays, Downstairs is chosen and
-- the distribution is available.
use phono_console.Base.{String, ◌≡◌, refl, inl, true, false, Option, none, some, pos, negsuc, ◌-ℤ◌}
use phono_console.Policy.{
  is_distributed, Route, local_phono, distributed_phono, PhonoOutputMode, distribution_confirmed,
  reduce_routing,
}
use phono_console.Detector.{ActivityDetector, update, candidate, boundary}
use phono_console.Controller.{Settings, Controller, Environment, on_route}
use phono_console.Controller.Sense.{sense, detect, needle_drop, signal_present, preactivate}
use phono_console.Controller.Modes.{modes, stick, inherits}
use phono_console.Controller.Bluetooth.{listen}
use phono_console.Controller.Distribution.{distribute, distribution_ready, select_source, pursue}
use phono_console.Controller.Decide.{decide, reduced, observe, latch, leave, enter}
use phono_console.Controller.Commit.{commit, switch, record_route, status_of}
use phono_console.Controller.Tick.{course, tick}

-- Levels in dB, times in seconds.
abbrev pub settings : Settings
settings = record {
  phono_threshold_dbfs = negsuc 44;
  hysteresis_db = pos 3;
  needle_drop_peak_dbfs = negsuc 19;
  distribution_start_timeout = 15;
  phono_mode_sticky = 300;
  refresh_interval = 60;
  floor_dbfs = negsuc 119;
  has_bluetooth_monitor = true;
  has_bluetooth_is_playing = true;
  has_distribution_available = true;
  has_distribution_capable = true;
  has_stream_healthy = true;
  has_prepare = true;
  has_release = true;
  has_expire = true;
  has_refresh = true;
  has_inherit = true;
  has_activate_output = true;
  has_activate_route = true;
  has_reconcile = true;
}

abbrev pub detector : ActivityDetector
detector = record {
  threshold_dbfs = negsuc 44;
  attack = 2;
  release = 10;
  hysteresis_db = pos 3;
  active = false;
  candidate_since = none;
}

abbrev pub fresh : Controller
fresh = record {
  detector = detector;
  bluetooth_detector = detector;
  route = none;
  last_route_error = none;
  distribution_healthy_since = none;
  distribution_pending_source = none;
  distribution_pending_since = none;
  phono_mode_inactive_since = none;
  phono_mode_last_refresh = none;
  last_reported_phono_activity = none;
}

-- A record has been playing for a while, locally.
abbrev pub spinning : Controller
spinning = record fresh { detector = record detector { active = true }; route = some local_phono }

abbrev pub no_error : Route → Option String
no_error r = none

abbrev pub downstairs_ready : Environment
downstairs_ready = record {
  level = some (negsuc 24);
  peak = some (negsuc 20);
  bluetooth_playing = false;
  bluetooth_playing_later = false;
  preapply_error = none;
  preactivate_error = none;
  console_playing = inl false;
  whole_house = false;
  output_mode = λ inherited. PhonoOutputMode.downstairs;
  bluetooth_level = inl (negsuc 89);
  distribution_available = true;
  distribution_capable = λ source. true;
  stream_healthy = true;
  start_error = none;
  routing_generation = 4;
  release_error = none;
  prepared = inl true;
  apply_error = no_error;
  activate_output_error = none;
  activate_route_error = none;
}

pub entering_test : (tick settings downstairs_ready 100 spinning).1.route ≡ distributed_phono
unfolding tick course sense detect needle_drop signal_present preactivate modes stick inherits
    listen distribute distribution_ready select_source pursue decide reduced observe latch leave
    enter commit switch record_route status_of update candidate boundary reduce_routing
    distribution_confirmed ◌-ℤ◌
entering_test = refl

pub is_new : on_route spinning.route (tick settings downstairs_ready 100 spinning).1.route ≡ false
is_new = rw entering_test refl

pub enters : is_distributed (tick settings downstairs_ready 100 spinning).1.route ≡ true
enters = rw entering_test refl
