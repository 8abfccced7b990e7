-- ===== src/Policy.antt =====
-- src/phono_console/policy.py: the routing vocabulary, the pure routing reducer and the
-- source-priority choice. `WHOLE_HOUSE_PHONO` is an alias of `distributed_phono` in the source
-- (same value), so it is no constructor here. A string enum is a data type.
pub mod Reduce
pub mod Priority
pub mod Tests
use phono_console.Base.{ℕ, Bool, true, false, ◌&&◌, Option, none, some, ◌==◌, if◌then◌else◌, String}

pub data Route : Type 0 where
  idle local_phono local_bluetooth ma_playback distributed_phono distributed_bluetooth : Route

pub data Source : Type 0 where
  no_source phono bluetooth music_assistant : Source

pub data DistributionPath : Type 0 where
  no_path ma_downstairs local_fallback : DistributionPath

pub data PhonoOutputMode : Type 0 where
  local downstairs : PhonoOutputMode

-- The single user-controlled output destination.
pub data OutputTarget : Type 0 where
  console downstairs : OutputTarget

pub data RoutingPhase : Type 0 where
  stable starting_distribution stopping_distribution degraded : RoutingPhase

pub data DistributionCommand : Type 0 where
  no_command start stop : DistributionCommand

pub record RoutingObservation : Type 0 where
  pub active_source : Source
  pub ma_console_playing : Bool
  pub ma_target_playing : Bool
  pub ma_connected : Bool
  pub sendspin_connected : Bool
  pub sendspin_stream_requested : Bool
  pub sendspin_streaming : Bool
  pub sendspin_stream_healthy : Bool
  pub distribution_capable : Bool
  pub selected_source : Source
  pub session_generation : Option ℕ

pub record RoutingDecision : Type 0 where
  pub route : Route
  pub phase : RoutingPhase
  pub command : DistributionCommand
  pub confirmed : Bool
  pub error : Option String

-- `a is b` on sources and routes.
abbrev pub is_source : Source → Source → Bool
is_source no_source no_source = true
is_source phono phono = true
is_source bluetooth bluetooth = true
is_source music_assistant music_assistant = true
is_source _ _ = false

abbrev pub is_route : Route → Route → Bool
is_route idle idle = true
is_route local_phono local_phono = true
is_route local_bluetooth local_bluetooth = true
is_route ma_playback ma_playback = true
is_route distributed_phono distributed_phono = true
is_route distributed_bluetooth distributed_bluetooth = true
is_route _ _ = false

-- `source in {Source.PHONO, Source.BLUETOOTH}`
abbrev pub is_physical : Source → Bool
is_physical phono = true
is_physical bluetooth = true
is_physical _ = false

-- `route in {Route.DISTRIBUTED_PHONO, Route.DISTRIBUTED_BLUETOOTH}`
abbrev pub is_distributed : Route → Bool
is_distributed distributed_phono = true
is_distributed distributed_bluetooth = true
is_distributed _ = false

abbrev is_generation : Option ℕ → ℕ → Bool
is_generation none generation = false
is_generation (some g) generation = g == generation

-- True only when every control-plane distribution signal agrees.
unfoldable pub distribution_confirmed : RoutingObservation → ℕ → Bool
distribution_confirmed o generation =
    is_physical o.active_source
    && (is_source o.selected_source o.active_source
        && (o.sendspin_connected
            && (o.sendspin_stream_requested
                && (o.sendspin_streaming
                    && (o.sendspin_stream_healthy
                        && (o.ma_connected
                            && (o.ma_console_playing
                                && (o.ma_target_playing
                                    && is_generation o.session_generation generation))))))))

abbrev decide_route : Route → RoutingPhase → DistributionCommand → RoutingDecision
decide_route r p c = record { route = r; phase = p; command = c; confirmed = false; error = none }

abbrev pub unavailable : String
unavailable = "Downstairs distribution is unavailable; playing locally"

abbrev local_route : Source → Route
local_route phono = local_phono
local_route _ = local_bluetooth

abbrev distributed_route : Source → Route
distributed_route phono = distributed_phono
distributed_route _ = distributed_bluetooth

abbrev stop_if : Bool → DistributionCommand
stop_if session_active = if session_active then stop else no_command

-- The branches of `reduce_routing` for a source that is not `NONE`.
reduce_active : OutputTarget → RoutingObservation → ℕ → Bool → RoutingDecision
reduce_active console o generation session_active =
    decide_route (local_route o.active_source)
      (if session_active then stopping_distribution else stable) (stop_if session_active)
reduce_active downstairs o generation session_active =
    if distribution_confirmed o generation
    then record {
      route = distributed_route o.active_source;
      phase = stable;
      command = no_command;
      confirmed = true;
      error = none;
    }
    else (if o.distribution_capable
        then decide_route (local_route o.active_source) starting_distribution start
        else record {
          route = local_route o.active_source;
          phase = RoutingPhase.degraded;
          command = no_command;
          confirmed = false;
          error = some unavailable;
        })

-- Pure routing reducer; side effects belong to the transition executor.
unfoldable pub reduce_routing : OutputTarget → RoutingObservation → ℕ → Bool → RoutingDecision
unfolding reduce_active
reduce_routing target o generation session_active =
    if is_source o.active_source no_source
    then decide_route (if o.ma_console_playing then ma_playback else idle) stable
        (stop_if session_active)
    else reduce_active target o generation session_active

pub record Inputs : Type 0 where
  pub phono_active : Bool
  pub bluetooth_active : Bool
  pub ma_playing : Bool
  pub distribution_available : Bool
  pub phono_output_mode : PhonoOutputMode

abbrev pub is_downstairs : PhonoOutputMode → Bool
is_downstairs local = false
is_downstairs downstairs = true

-- Choose a route by the project's source-priority contract.
unfoldable pub choose_route : Inputs → Route
choose_route i =
    if i.phono_active
    then (if i.distribution_available && is_downstairs i.phono_output_mode
        then distributed_phono
        else local_phono)
    else (if i.bluetooth_active
        then (if i.distribution_available then distributed_bluetooth else local_bluetooth)
        else (if i.ma_playing then ma_playback else idle))

unfoldable pub route_source : Route → Source
route_source local_phono = phono
route_source distributed_phono = phono
route_source local_bluetooth = bluetooth
route_source distributed_bluetooth = bluetooth
route_source ma_playback = music_assistant
route_source idle = no_source

unfoldable pub route_distribution : Route → DistributionPath
route_distribution distributed_phono = ma_downstairs
route_distribution distributed_bluetooth = ma_downstairs
route_distribution local_phono = local_fallback
route_distribution local_bluetooth = local_fallback
route_distribution idle = no_path
route_distribution ma_playback = no_path
