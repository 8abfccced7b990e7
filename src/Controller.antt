-- ===== src/Controller.antt =====
-- src/phono_console/controller.py: the state of `Controller`, what one tick reads from outside,
-- and the effects that it has. The children are the parts of `tick` in their order:
-- Sense (138-232), Modes (234-280), Bluetooth (281-331), Distribution (332-409), Decide (411-513)
-- and Commit (515-641); Tick composes them.
--
-- A callback or a device that the constructor is given is outside the model: each call in a tick
-- is a field of `Environment` with its result, where `none` (or `some` message, for a call that
-- returns nothing) is an exception. Effects are a list of actions in the order of the source. Not
-- modelled: an exception of a call that `tick` does not guard (it ends the tick; `run` logs it),
-- the log lines, the payloads of component reports and events, and the level display.
pub mod Sense
pub mod Modes
pub mod Bluetooth
pub mod Distribution
pub mod Decide
pub mod Commit
pub mod Tick
pub mod Safety
pub mod Reported
pub mod Priority
pub mod Stickiness
pub mod Example
pub mod Tests
use phono_console.Base.{
  ℕ, String, ◌⊎◌, Bool, true, false, Option, none, some, List, [], ℤ, pos, ◌-ℤ◌, leb_ℤ,
}
use phono_console.Policy.{
  Route, Source, PhonoOutputMode, RoutingPhase, DistributionPath, is_route, idle,
}
use phono_console.Detector.{ActivityDetector}

-- The settings that a tick reads; times in the unit of the detector.
pub record Settings : Type 0 where
  pub phono_threshold_dbfs : ℤ
  pub hysteresis_db : ℤ
  pub needle_drop_peak_dbfs : ℤ
  pub distribution_start_timeout : ℕ
  pub phono_mode_sticky : ℕ
  -- Sixty seconds.
  pub refresh_interval : ℕ
  -- `-120.0`
  pub floor_dbfs : ℤ
  -- Which optional callbacks were given.
  pub has_bluetooth_monitor : Bool
  pub has_bluetooth_is_playing : Bool
  pub has_distribution_available : Bool
  pub has_distribution_capable : Bool
  pub has_stream_healthy : Bool
  pub has_prepare : Bool
  pub has_release : Bool
  pub has_expire : Bool
  pub has_refresh : Bool
  pub has_inherit : Bool
  pub has_activate_output : Bool
  pub has_activate_route : Bool
  -- The router has a `reconcile` method.
  pub has_reconcile : Bool

pub record Controller : Type 0 where
  pub detector : ActivityDetector
  pub bluetooth_detector : ActivityDetector
  pub route : Option Route
  pub last_route_error : Option String
  pub distribution_healthy_since : Option ℕ
  pub distribution_pending_source : Option Source
  -- A failed start is dated back by the timeout, so this may be negative.
  pub distribution_pending_since : Option ℤ
  pub phono_mode_inactive_since : Option ℕ
  pub phono_mode_last_refresh : Option ℕ
  pub last_reported_phono_activity : Option Bool

-- What the calls of one tick return.
pub record Environment : Type 0 where
  -- `level_monitor.level_dbfs()`; `none` is a failure or the timeout.
  pub level : Option ℤ
  -- The larger peak of `level_monitor.latest`; `none` if there is none.
  pub peak : Option ℤ
  -- `bluetooth_is_playing()`, at the start of the tick and after the Bluetooth level.
  pub bluetooth_playing : Bool
  pub bluetooth_playing_later : Bool
  -- The early `apply(LOCAL_PHONO)` and the early `activate_output()`.
  pub preapply_error : Option String
  pub preactivate_error : Option String
  -- `music_assistant.console_is_playing()`; `inr` is the failure's message.
  pub console_playing : Bool ⊎ String
  pub whole_house : Bool
  -- `phono_output_mode()`, given whether the mode has just been inherited.
  pub output_mode : Bool → PhonoOutputMode
  pub bluetooth_level : ℤ ⊎ String
  pub distribution_available : Bool
  pub distribution_capable : Source → Bool
  pub stream_healthy : Bool
  -- The first `prepare_distribution` of a tick, whose result is not read.
  pub start_error : Option String
  pub routing_generation : ℕ
  pub release_error : Option String
  -- The second `prepare_distribution`: its result, or a message.
  pub prepared : Bool ⊎ String
  -- `apply` or `reconcile` of the chosen route.
  pub apply_error : Route → Option String
  pub activate_output_error : Option String
  pub activate_route_error : Option String

pub data Component : Type 0 where
  local_output music_assistant bluetooth_audio distribution amplifier : Component

pub data Health : Type 0 where
  healthy degraded failed : Health

pub data Event : Type 0 where
  needle_drop_detected activity_changed apply_recovered apply_failed route_changed : Event

pub data Action : Type 0 where
  -- `_set_component_from_monitor("capture", …)`, `_set_router_component` and `_set_component`.
  report_capture : Health → Action
  report_router : Route → Action
  report : Component → Health → String → Action
  set_routing_state : RoutingPhase → Source → Option String → Action
  emit : Event → Action
  apply reconcile : Route → Action
  activate_output : Action
  activate_route : Route → Action
  inherit_mode refresh_mode expire_mode : Action
  prepare : Source → Action
  release : Action

-- `controller.Status`
pub record Status : Type 0 where
  pub route : Route
  pub phono_active : Bool
  pub ma_playing : Bool
  pub whole_house_requested : Bool
  pub level_dbfs : ℤ
  pub bluetooth_active : Bool
  pub bluetooth_level_dbfs : ℤ
  pub source : Source
  pub distribution : DistributionPath

-- `self.route in {None, Route.IDLE}`
abbrev pub is_quiet : Option Route → Bool
is_quiet none = true
is_quiet (some r) = is_route r idle

-- `self.route is r`
abbrev pub on_route : Option Route → Route → Bool
on_route none r = false
on_route (some s) r = is_route s r

abbrev pub when : Bool → List Action → List Action
when true actions = actions
when false actions = []

-- `now - since >= delay` for times that may be negative.
abbrev pub elapsed : ℕ → ℤ → ℕ → Bool
elapsed now since delay = leb_ℤ (pos delay) (pos now -ℤ since)
