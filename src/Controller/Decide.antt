-- ===== src/Controller/Decide.antt =====
-- `Controller.tick`, lines 411-513 of src/phono_console/controller.py: the reducer's decision, the
-- latch of a confirmed path, the release of the distribution and its preparation.
use phono_console.Base.{
  String, ◌⊎◌, inl, inr, Bool, false, not, ◌&&◌, Option, none, some, List, [], ◌∷◌, ◌++◌,
  if◌then◌else◌,
}
use phono_console.Policy.{
  Route, idle, ma_playback, distributed_phono, distributed_bluetooth, no_source, phono, bluetooth,
  is_source, is_route, is_distributed, PhonoOutputMode, is_downstairs, OutputTarget, console,
  RoutingObservation, reduce_routing, choose_route, route_source,
}
use phono_console.Controller.{
  Settings, Controller, Environment, Action, report, distribution, degraded, prepare, release,
  on_route,
}
use phono_console.Controller.Sense.{Sensing}
use phono_console.Controller.Modes.{Modes}
use phono_console.Controller.Bluetooth.{Listening}
use phono_console.Controller.Distribution.{Distribution}

abbrev pub target_of : PhonoOutputMode → OutputTarget
target_of mode = if is_downstairs mode then OutputTarget.downstairs else console

abbrev pub was_distributed : Option Route → Bool
was_distributed none = false
was_distributed (some r) = is_distributed r

unfoldable pub observe : Environment → Modes → Distribution → RoutingObservation
observe e m d = record {
  active_source = d.selected_source;
  ma_console_playing = if is_source d.selected_source no_source then m.ma_playing else d.available;
  ma_target_playing = d.available;
  ma_connected = d.available;
  sendspin_connected = d.available;
  sendspin_stream_requested = d.available;
  sendspin_streaming = d.available;
  sendspin_stream_healthy = d.available;
  distribution_capable = d.capable;
  selected_source = d.selected_source;
  session_generation = if d.available then some e.routing_generation else none;
}

unfoldable pub reduced : Environment → Modes → Distribution → Option Route → Route
unfolding observe
reduced e m d route =
    (reduce_routing (target_of m.output_mode) (observe e m d) e.routing_generation
      (was_distributed route)).route

-- Lines 456-473: a confirmed path is kept through a brief gap of the control plane.
abbrev pub bluetooth_latched : Sensing → Listening → Distribution → Option Route → Bool
bluetooth_latched x b d route =
    on_route route distributed_bluetooth
    && (b.active && (not x.phono_active && (d.capable && d.stream_healthy)))

abbrev pub phono_latched : Distribution → Option Route → Bool
phono_latched d route =
    d.available && (on_route route distributed_phono && is_source d.selected_source phono)

unfoldable pub latch : Sensing → Listening → Distribution → Option Route → Route → Route
latch x b d route decided =
    if bluetooth_latched x b d route
    then distributed_bluetooth
    else (if phono_latched d route then distributed_phono else decided)

abbrev message_report : Option String → List Action
message_report none = []
message_report (some message) = report distribution degraded message ∷ []

-- Lines 482-490. The telemetry may still report the live input that was just stopped.
unfoldable pub leave : Settings → Environment → Option Route → Route → Route × List Action
leave s e route desired =
    if was_distributed route && not (is_distributed desired)
    then (
      if is_route desired ma_playback then idle else desired,
      if s.has_release then release ∷ message_report e.release_error else [],
    )
    else (desired, [])

abbrev pub prepared_or_failed : Bool ⊎ String → Bool × List Action
prepared_or_failed (inl b) = (b, [])
prepared_or_failed (inr message) = (false, report distribution degraded message ∷ [])

unfoldable pub fall_back : Modes → Distribution → Route
fall_back m d = choose_route (record {
  phono_active = is_source d.selected_source phono;
  bluetooth_active = is_source d.selected_source bluetooth;
  ma_playing = m.ma_playing;
  distribution_available = false;
  phono_output_mode = m.output_mode;
})

-- Whether this tick asks for the preparation of the desired route (lines 491-496).
abbrev pub must_prepare : Settings → Distribution → Option Route → Route → Bool
must_prepare s d route desired =
    is_distributed desired && (not (on_route route desired) && (s.has_prepare && d.can_start))

-- Lines 491-512
unfoldable pub enter :
    Settings
    → Environment
    → Modes
    → Distribution
    → Route
    → Controller
    → Controller × Route × List Action
unfolding fall_back
enter s e m d desired c =
    if must_prepare s d c.route desired
    then (let (prepared, reports) = prepared_or_failed e.prepared in
        let actions = prepare (route_source desired) ∷ reports in
        if prepared
        then (c, desired, actions)
        else (record c { distribution_healthy_since = none }, fall_back m d, actions))
    else (c, desired, [])

unfoldable pub decide :
    Settings
    → Environment
    → Sensing
    → Modes
    → Listening
    → Distribution
    → Controller
    → Controller × Route × List Action
unfolding reduced latch leave enter
decide s e x m b d c =
    let (left, released) = leave s e c.route (latch x b d c.route (reduced e m d c.route)) in
    let (c', desired, entered) = enter s e m d left c in (c', desired, released ++ entered)
