-- ===== src/State.antt =====
-- src/phono_console/state.py: `StateStore`, the state that the controller and the HTTP API share.
--
-- A method runs under the condition's lock, so each is one step. Times are naturals of the monotonic
-- clock; a timestamp that is only printed is a natural too. The dictionary of components is a list
-- of entries in the order of insertion, with the position of a name kept when it is replaced. The
-- details of a component and of an event are of a type D that the store only keeps and compares
-- (`same old new` says that every item of the new details stands in the old ones), and the
-- dictionaries that are stored whole (source, Music Assistant, Bluetooth, system) are values of D as
-- well; their setters only replace them. Waiters on `changed` are not modelled.
pub mod Intent
pub mod Log
pub mod Health
pub mod Components
pub mod Tests
use text.Mathlib.Text.{◌==◌ as str_eq}
use phono_console.Base.{
  ℕ, zero, suc, ◌+◌, ◌-◌, String, Bool, true, false, not, ◌&&◌, Option, none, some, List, [], ◌∷◌,
  ◌++◌, map, leb, if◌then◌else◌, length, ℤ,
}
use mathlib.Core.Option
use phono_console.Policy.{
  OutputTarget, console, downstairs, RoutingPhase, stable, starting_distribution,
  stopping_distribution, Source, no_source, PhonoOutputMode, local, is_distributed,
}
use phono_console.Controller.{Status}

pub data ComponentStatus : Type 0 where
  healthy degraded failed : ComponentStatus

abbrev pub same_status : ComponentStatus → ComponentStatus → Bool
same_status healthy healthy = true
same_status degraded degraded = true
same_status failed failed = true
same_status _ _ = false

pub record Component (D : Type 0) : Type 0 where
  pub status : ComponentStatus
  pub message : String
  pub details : D
  pub updated_at : ℕ

pub record RecordedEvent (D : Type 0) : Type 0 where
  pub timestamp : ℕ
  pub event : String
  pub details : D

pub record ChannelLevel : Type 0 where
  pub peak_dbfs : ℤ
  pub rms_dbfs : ℤ
  pub max_peak_dbfs : ℤ
  pub clipped : Bool

pub record StateStore (D : Type 0) : Type 0 where
  pub max_events : ℕ
  pub started_at : ℕ
  pub last_status_at : Option ℕ
  pub status : Option Status
  pub output_target : OutputTarget
  pub routing_generation : ℕ
  pub routing_phase : RoutingPhase
  pub routing_session_generation : Option ℕ
  pub routing_session_source : Source
  pub routing_error : Option String
  pub sendspin_source : D
  pub music_assistant : D
  pub bluetooth : D
  pub system : D
  -- Left and right.
  pub input_levels : Option (ChannelLevel × ChannelLevel)
  pub components : List (String × Component D)
  pub events : List (RecordedEvent D)

-- `__init__`, with the empty dictionary.
unfoldable pub new_store : {D : Type 0} → ℕ → D → ℕ → StateStore D
new_store max_events empty now = record {
  max_events = max_events;
  started_at = now;
  last_status_at = none;
  status = none;
  output_target = console;
  routing_generation = 0;
  routing_phase = stable;
  routing_session_generation = none;
  routing_session_source = no_source;
  routing_error = none;
  sendspin_source = empty;
  music_assistant = empty;
  bluetooth = empty;
  system = empty;
  input_levels = none;
  components = [];
  events = [];
}

unfoldable pub set_status : {D : Type 0} → Status → ℕ → StateStore D → StateStore D
set_status status now s = record s { status = some status; last_status_at = some now }

-- `_components.get(name)`
unfoldable pub get_component :
    {D : Type 0} → String → List (String × Component D) → Option (Component D)
get_component name [] = none
get_component name ((key, c) ∷ rest) = if str_eq key name then some c else get_component name rest

unfoldable pub put_component :
    {D : Type 0} → String → Component D → List (String × Component D) → List (String × Component D)
put_component name c [] = (name, c) ∷ []
put_component name c ((key, old) ∷ rest) =
    let rest' = put_component name c rest in
    if str_eq key name then (key, c) ∷ rest else (key, old) ∷ rest'

-- The time of the last change: an unchanged report keeps the previous one.
abbrev pub updated :
    {D : Type 0} → (D → D → Bool) → Option (Component D) → ComponentStatus → String → D → ℕ → ℕ
updated same none status message details now = now
updated same (some previous) status message details now =
    if same_status previous.status status
      && (str_eq previous.message message && same previous.details details)
    then previous.updated_at
    else now

-- `set_component`; `none` is the `ValueError` for a status that is not one of the three.
unfoldable pub set_component :
    {D : Type 0}
    → (D → D → Bool)
    → String
    → Option ComponentStatus
    → String
    → D
    → ℕ
    → StateStore D
    → Option (StateStore D)
set_component same name none message details now s = none
set_component same name (some status) message details now s = some (record s {
  components =
      put_component name
        (record {
          status = status;
          message = message;
          details = details;
          updated_at = updated same (get_component name s.components) status message details now;
        })
        s.components;
})

abbrev fresh_peak : ℤ → ChannelLevel → ChannelLevel
fresh_peak floor l = record l { max_peak_dbfs = floor; clipped = false }

-- `set_source_state`, `set_music_assistant_state`, `set_bluetooth_state` and `set_system_info`.
unfoldable pub set_source_state : {D : Type 0} → D → StateStore D → StateStore D
set_source_state source s = record s { sendspin_source = source }

unfoldable pub set_music_assistant_state : {D : Type 0} → D → StateStore D → StateStore D
set_music_assistant_state state s = record s { music_assistant = state }

unfoldable pub set_bluetooth_state : {D : Type 0} → D → StateStore D → StateStore D
set_bluetooth_state state s = record s { bluetooth = state }

unfoldable pub set_system_info : {D : Type 0} → D → StateStore D → StateStore D
set_system_info info s = record s { system = info }

unfoldable pub set_input_levels :
    {D : Type 0} → ChannelLevel → ChannelLevel → StateStore D → StateStore D
set_input_levels left right s = record s { input_levels = some (left, right) }

unfoldable pub clear_input_levels : {D : Type 0} → StateStore D → StateStore D
clear_input_levels s = record s { input_levels = none }

-- `reset_input_level_history`, where `floor` is -120 dB.
unfoldable pub reset_input_level_history : {D : Type 0} → ℤ → StateStore D → StateStore D
reset_input_level_history floor s = record s {
  input_levels = elim s.input_levels [
    | none ↦ none
    | some (left, right) ↦ some (fresh_peak floor left, fresh_peak floor right)
  ];
}

unfoldable pub set_output_target :
    {D : Type 0} → OutputTarget → Bool → StateStore D → StateStore D × ℕ
set_output_target target increment s =
    let generation = if increment then s.routing_generation + 1 else s.routing_generation in
    (
      record s {
        output_target = target;
        routing_generation = generation;
        routing_phase = elim target [
          | downstairs ↦ starting_distribution
          | console ↦ stopping_distribution
        ];
        routing_error = none;
      },
      generation,
    )

unfoldable pub request_whole_house : {D : Type 0} → Bool → StateStore D → StateStore D
request_whole_house requested s =
    (set_output_target (if requested then downstairs else console) true s).0

unfoldable pub set_local_playback_only : {D : Type 0} → Bool → StateStore D → StateStore D
set_local_playback_only enabled s =
    (set_output_target (if enabled then console else downstairs) true s).0

unfoldable pub set_phono_output_mode : {D : Type 0} → PhonoOutputMode → StateStore D → StateStore D
set_phono_output_mode mode s =
    (set_output_target (elim mode [ PhonoOutputMode.downstairs ↦ downstairs | local ↦ console ])
      true s).0

unfoldable pub set_routing_state :
    {D : Type 0} → RoutingPhase → Option ℕ → Source → Option String → StateStore D → StateStore D
set_routing_state phase generation source error s = record s {
  routing_phase = phase;
  routing_session_generation = generation;
  routing_session_source = source;
  routing_error = error;
}

abbrev pub is_console : OutputTarget → Bool
is_console console = true
is_console downstairs = false

unfoldable pub local_playback_only : {D : Type 0} → StateStore D → Bool
local_playback_only s = is_console s.output_target

unfoldable pub phono_output_mode : {D : Type 0} → StateStore D → PhonoOutputMode
phono_output_mode s = elim s.output_target [
  | downstairs ↦ PhonoOutputMode.downstairs
  | console ↦ local
]

unfoldable pub whole_house_requested : {D : Type 0} → StateStore D → Bool
whole_house_requested s = not (is_console s.output_target)

abbrev drop_oldest : {D : Type 0} → List (RecordedEvent D) → List (RecordedEvent D)
drop_oldest [] = []
drop_oldest (x ∷ xs) = xs

-- `deque(maxlen=n).append`; a deque of length 0 keeps nothing.
unfoldable pub append_event :
    {D : Type 0} → ℕ → List (RecordedEvent D) → RecordedEvent D → List (RecordedEvent D)
append_event zero events e = []
append_event (suc n) events e =
    (if leb (suc n) (length events) then drop_oldest events else events) ++ (e ∷ [])

unfoldable pub emit : {D : Type 0} → String → D → ℕ → StateStore D → StateStore D
emit event details now s = record s {
  events =
      append_event s.max_events s.events
        (record { timestamp = now; event = event; details = details });
}

abbrev is_stable : RoutingPhase → Bool
is_stable stable = true
is_stable _ = false

-- The `confirmed` field of `snapshot`.
unfoldable pub confirmed : {D : Type 0} → StateStore D → Bool
confirmed s = elim s.status [
  | none ↦ false
  | some status ↦ is_distributed status.route && is_stable s.routing_phase
]

-- The names of the components with a status, in the order of the list; the source sorts them.
unfoldable pub with_status :
    {D : Type 0} → ComponentStatus → List (String × Component D) → List String
with_status status [] = []
with_status status ((name, c) ∷ rest) =
    let names = with_status status rest in
    if same_status c.status status then name ∷ names else names

abbrev pub no_names : List String → Bool
no_names [] = true
no_names (n ∷ ns) = false

pub record HealthSnapshot : Type 0 where
  pub operational : Bool
  pub is_ok : Bool
  pub uptime : ℕ
  pub controller_fresh : Bool
  pub status_age : Option ℕ
  pub failed_components : List String
  pub degraded_components : List String

abbrev pub within : ℕ → Option ℕ → Bool
within limit none = false
within limit (some age) = leb age limit

-- `health_snapshot`; an age never goes below 0.
unfoldable pub health_snapshot : {D : Type 0} → ℕ → ℕ → StateStore D → HealthSnapshot
health_snapshot stale_after now s =
    let age = Option.map (λ t. now - t) s.last_status_at in
    let fresh = within stale_after age in
    let failing = with_status failed s.components in
    let ailing = with_status degraded s.components in
    let operational = fresh && no_names failing in
    record {
      operational = operational;
      is_ok = operational && no_names ailing;
      uptime = now - s.started_at;
      controller_fresh = fresh;
      status_age = age;
      failed_components = failing;
      degraded_components = ailing;
    }
