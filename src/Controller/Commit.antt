-- ===== src/Controller/Commit.antt =====
-- `Controller.tick`, lines 515-641 of src/phono_console/controller.py: the route is applied, the
-- output and the volume profile are activated, and the status is published.
use text.Mathlib.Text.{◌==◌ as str_eq}
use phono_console.Base.{
  String, Bool, false, not, ◌&&◌, Option, none, some, List, [], ◌∷◌, ◌++◌, if◌then◌else◌, is_some,
}
use phono_console.Policy.{
  Route, idle, local_phono, no_source, is_route, is_distributed, PhonoOutputMode, is_downstairs,
  stable, route_source, route_distribution,
}
use phono_console.Controller.{
  Settings, Controller, Environment, Action, Status, report, report_router, local_output, amplifier,
  degraded, failed, emit, apply_failed, apply_recovered, route_changed, set_routing_state, apply,
  reconcile, activate_output, activate_route, on_route, is_quiet, when,
}
use phono_console.Controller.Sense.{Sensing, Preactivation}
use phono_console.Controller.Modes.{Modes}
use phono_console.Controller.Bluetooth.{Listening}

-- How the output is brought to the desired route (lines 530-536).
pub data Handover : Type 0 where
  nothing : Handover
  reconciled applied : Handover

abbrev pub handover : Settings → Preactivation → Option Route → Route → Handover
handover s p route desired =
    if on_route route desired
    then (if s.has_reconcile then reconciled else nothing)
    else (if p.local_audio && is_route desired local_phono then nothing else applied)

abbrev pub handover_actions : Handover → Route → List Action
handover_actions nothing desired = []
handover_actions reconciled desired = reconcile desired ∷ []
handover_actions applied desired = apply desired ∷ []

abbrev pub handover_error : Environment → Handover → Route → Option String
handover_error e nothing desired = none
handover_error e reconciled desired = e.apply_error desired
handover_error e applied desired = e.apply_error desired

abbrev amplifier_report : Option String → List Action
amplifier_report none = []
amplifier_report (some message) = report amplifier degraded message ∷ []

-- Lines 521-526
abbrev pub activating_output : Settings → Preactivation → Option Route → Route → Bool
activating_output s p route desired =
    not (is_route desired idle) && (is_quiet route && (s.has_activate_output && not p.output))

-- Lines 537-560, after the handover went through.
settle : Settings → Environment → Preactivation → Route → Controller → Controller × List Action
settle s e p desired c = (
  record c { last_route_error = none },
  report_router desired
      ∷ (when (activating_output s p c.route desired)
            (activate_output ∷ amplifier_report e.activate_output_error)
          ++ (when (not (on_route c.route desired) && s.has_activate_route)
                (activate_route desired ∷ amplifier_report e.activate_route_error)
              ++ when (is_some c.last_route_error) (emit apply_recovered ∷ []))),
)

abbrev same_error : Option String → String → Bool
same_error none _ = false
same_error (some last) message = str_eq message last

-- Lines 561-575
refuse : String → Controller → Controller × List Action
refuse message c = (
  record c { last_route_error = some message },
  report local_output failed message
      ∷ (when (not (same_error c.last_route_error message)) (emit apply_failed ∷ [])
          ++ (apply idle ∷ [])),
)

-- The `try` statement of lines 527-575: the new state, the route that is up, and the actions.
unfoldable pub switch :
    Settings → Environment → Preactivation → Route → Controller → Controller × Route × List Action
unfolding settle refuse
switch s e p desired c =
    let h = handover s p c.route desired in
    elim (handover_error e h desired) [
      | none ↦
          let (c', actions) = settle s e p desired c in
          (c', desired, handover_actions h desired ++ actions)
      | some message ↦
          let (c', actions) = refuse message c in (c', idle, handover_actions h desired ++ actions)
    ]

unfoldable pub status_of : Environment → Sensing → Modes → Listening → Route → Status
status_of e x m b route = record {
  route = route;
  phono_active = x.phono_active;
  ma_playing = m.ma_playing;
  whole_house_requested = e.whole_house;
  level_dbfs = x.level;
  bluetooth_active = b.active;
  bluetooth_level_dbfs = b.level;
  source = route_source route;
  distribution = route_distribution route;
}

-- Lines 577-600
unfoldable pub record_route : PhonoOutputMode → Route → Controller → Controller × List Action
record_route mode route c = (
  record c { route = some route },
  when (not (on_route c.route route)) (emit route_changed ∷ [])
      ++ (if is_distributed route
          then set_routing_state stable (route_source route) none ∷ []
          else when (not (is_downstairs mode)) (set_routing_state stable no_source none ∷ [])),
)

unfoldable pub commit :
    Settings
    → Environment
    → Preactivation
    → Sensing
    → Modes
    → Listening
    → Route
    → Controller
    → Controller × Status × List Action
unfolding switch record_route status_of
commit s e p x m b desired c =
    let (c', route, actions) = switch s e p desired c in
    let (c'', more) = record_route m.output_mode route c' in
    (c'', status_of e x m b route, actions ++ more)
