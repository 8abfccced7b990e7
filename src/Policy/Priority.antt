-- ===== src/Policy/Priority.antt =====
-- `choose_route` (src/phono_console/policy.py) against the documented priority of sources, and
-- against the routing reducer.
use phono_console.Base.{
  ℕ, Bool, true, false, ◌&&◌, List, [], ◌∷◌, ◌≡◌, ◌⊎◌, ◌≢◌, arith, if◌then◌else◌,
}
use phono_console.Policy.{
  Route, idle, local_phono, local_bluetooth, ma_playback, distributed_phono, distributed_bluetooth,
  Source, phono, bluetooth, no_source, music_assistant, Inputs, choose_route, is_downstairs,
  is_source, OutputTarget, RoutingObservation, reduce_routing, distribution_confirmed, route_source,
  PhonoOutputMode, is_distributed, route_distribution, DistributionPath,
}

-- The contract as a table in order of priority: each source with the route that it takes.
abbrev pub priorities : Inputs → List (Bool × Route)
priorities i =
    (
      i.phono_active && (i.distribution_available && is_downstairs i.phono_output_mode),
      distributed_phono,
    )
    ∷ (i.phono_active, local_phono)
    ∷ (i.bluetooth_active && i.distribution_available, distributed_bluetooth)
    ∷ (i.bluetooth_active, local_bluetooth)
    ∷ (i.ma_playing, ma_playback)
    ∷ []

abbrev pub first_enabled : List (Bool × Route) → Route
first_enabled [] = idle
first_enabled ((enabled, route) ∷ rest) = if enabled then route else first_enabled rest

-- `choose_route` takes the first enabled line of the table of priorities, and idle if none is.
pub choose_route-priorities : (i : Inputs) → choose_route i ≡ first_enabled (priorities i)
unfolding choose_route
choose_route-priorities i = ground arith

-- The source that wins is a matter of activity alone: neither the distribution nor the output
-- mode changes it.
abbrev pub winner : Inputs → Source
winner i =
    if i.phono_active
    then phono
    else (if i.bluetooth_active
        then bluetooth
        else (if i.ma_playing then music_assistant else no_source))

pub route_source-choose_route : (i : Inputs) → route_source (choose_route i) ≡ winner i
unfolding choose_route route_source
route_source-choose_route i = ground arith

-- The inputs that the controller builds when a prepared distribution fails.
abbrev pub fallback_inputs : Source → Bool → PhonoOutputMode → Inputs
fallback_inputs s playing mode = record {
  phono_active = is_source s phono;
  bluetooth_active = is_source s bluetooth;
  ma_playing = playing;
  distribution_available = false;
  phono_output_mode = mode;
}

-- Where the distribution is not confirmed and the active source is not Music Assistant, the route
-- that `choose_route` falls back to, without a distribution, is the one that `reduce_routing` takes.
pub choose_route-reduce_routing :
    (target : OutputTarget) (o : RoutingObservation) (g : ℕ) (session : Bool)
    (mode : PhonoOutputMode)
    → o.active_source ≢ music_assistant
    → distribution_confirmed o g ≡ false
    → choose_route (fallback_inputs o.active_source o.ma_console_playing mode)
      ≡ (reduce_routing target o g session).route
unfolding choose_route reduce_routing
choose_route-reduce_routing target o g session mode h u = ground arith

-- A route's source and its path are consistent: the Downstairs path carries physical sources
-- only, and a route with no path is idle or Music Assistant's own.
pub route_distribution_cases :
    (r : Route)
    → ((route_distribution r ≡ DistributionPath.ma_downstairs)
        × (is_distributed r ≡ true)
        × ((route_source r ≡ phono) ⊎ (route_source r ≡ bluetooth)))
      ⊎ ((route_distribution r ≡ DistributionPath.local_fallback)
          × (is_distributed r ≡ false)
          × ((route_source r ≡ phono) ⊎ (route_source r ≡ bluetooth)))
      ⊎ ((route_distribution r ≡ DistributionPath.no_path)
          × (is_distributed r ≡ false)
          × ((route_source r ≡ no_source) ⊎ (route_source r ≡ music_assistant)))
unfolding route_distribution route_source
route_distribution_cases r = ground arith
