-- ===== src/Controller/Distribution.antt =====
-- `Controller.tick`, lines 332-409 of src/phono_console/controller.py, with `_distribution_ready`,
-- `_distribution_is_capable` and `_distribution_stream_is_healthy`: which source is selected, and
-- the start of the Downstairs distribution. The local `distribution_pending` is assigned and never
-- read in the source, and is left out.
use phono_console.Base.{
  ℕ, String, Bool, true, false, not, ◌&&◌, ◌||◌, Option, none, some, List, [], ◌∷◌, if◌then◌else◌,
  ℤ, pos, ◌-ℤ◌,
}
use phono_console.Policy.{
  Source, no_source, phono, bluetooth, is_source, is_physical, PhonoOutputMode, is_downstairs,
  RoutingPhase, starting_distribution,
}
use phono_console.Controller.{
  Settings, Controller, Environment, Action, report, distribution, degraded, set_routing_state,
  prepare, elapsed,
}
use phono_console.Controller.Sense.{Sensing}
use phono_console.Controller.Bluetooth.{Listening}

pub record Distribution : Type 0 where
  pub available : Bool
  pub selected_source : Source
  pub capable : Bool
  pub stream_healthy : Bool
  pub can_start : Bool

-- `_distribution_ready`
unfoldable pub distribution_ready : Settings → Environment → ℕ → Controller → Controller × Bool
distribution_ready s e now c =
    if s.has_distribution_available
    then (if e.distribution_available
        then (record c { distribution_healthy_since = some now }, true)
        else (record c { distribution_healthy_since = none }, false))
    else (c, false)

unfoldable pub select_source : Bool → Bool → Bool → Source
select_source signal_present bluetooth_active phono_active =
    if signal_present
    then phono
    else (if bluetooth_active then bluetooth else (if phono_active then phono else no_source))

abbrev is_pending : Option Source → Source → Bool
is_pending none _ = false
is_pending (some p) source = is_source p source

abbrev is_overdue : Option ℤ → ℕ → ℕ → Bool
is_overdue none now delay = false
is_overdue (some since) now delay = elapsed now since delay

-- The start is attempted for a new source, and again after the timeout.
unfoldable pub should_prepare : Settings → ℕ → Source → Controller → Bool
should_prepare s now source c =
    not (is_pending c.distribution_pending_source source)
    || is_overdue c.distribution_pending_since now s.distribution_start_timeout

abbrev pub unavailable : String
unavailable = "Downstairs unavailable; source remains local"

-- Lines 369-385. A failed start is dated back, so that the next tick tries again.
start_distribution : Settings → Environment → ℕ → Source → Controller → Controller × List Action
start_distribution s e now source c =
    let begun = record c {
      distribution_pending_source = some source;
      distribution_pending_since = some (pos now);
    } in
    let announced = set_routing_state starting_distribution source none in
    if s.has_prepare
    then elim e.start_error [
      | none ↦ (begun, announced ∷ prepare source ∷ [])
      | some message ↦ (
        record c {
          distribution_pending_source = some source;
          distribution_pending_since = some (pos now -ℤ pos s.distribution_start_timeout);
        },
        announced ∷ prepare source ∷ report distribution degraded message ∷ [],
      )
    ]
    else (begun, announced ∷ [])

-- Lines 352-409, from the locals that they read: required, available, capable, can_start.
unfoldable pub pursue :
    Settings → Environment → ℕ → Bool → Distribution → Controller → Controller × List Action
unfolding start_distribution
pursue s e now required d c =
    if required && (not d.available && (d.capable && d.can_start))
    then (if should_prepare s now d.selected_source c
        then start_distribution s e now d.selected_source c
        else (c, []))
    else (if required && not d.available
        then (
          c,
          report distribution degraded unavailable
              ∷ set_routing_state RoutingPhase.degraded d.selected_source (some unavailable)
              ∷ [],
        )
        else (if d.available || is_source d.selected_source no_source
            then (
              record c { distribution_pending_source = none; distribution_pending_since = none },
              [],
            )
            else (c, [])))

unfoldable pub distribute :
    Settings
    → Environment
    → ℕ
    → PhonoOutputMode
    → Sensing
    → Listening
    → Controller
    → Controller × Distribution × List Action
distribute s e now mode x b c =
    let (c', available) = distribution_ready s e now c in
    let source = select_source x.phono_signal_present b.active x.phono_active in
    let d : Distribution = record {
      available = available;
      selected_source = source;
      capable = s.has_distribution_capable && e.distribution_capable source;
      stream_healthy = s.has_stream_healthy && e.stream_healthy;
      can_start = not (is_source source bluetooth) || b.pcm_ready;
    } in
    let (c'', actions) = pursue s e now (is_physical source && is_downstairs mode) d c' in
    (c'', d, actions)
