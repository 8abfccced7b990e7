-- ===== src/Runtime/Tests.antt =====
-- Tests of the callbacks of src/phono_console/runtime.py, and the properties while a record plays
-- Downstairs.
use phono_console.Base.{
  ◌∷◌, List, ◌+ℤ◌, pos, ℕ, ◌≡◌, refl, sym, true, false, none, some, [], negsuc,
}
use phono_console.Policy.{
  console, OutputTarget, PhonoOutputMode, ma_playback, downstairs, stable, phono, bluetooth,
  local_phono, ma_downstairs,
}
use phono_console.Controller.{Status}
use phono_console.Controller.Example.{settings, downstairs_ready, spinning, enters, is_new}
use phono_console.State.{set_output_target, set_routing_state, StateStore, whole_house_requested}
use phono_console.Publisher.{Publisher, initial}
use phono_console.Publisher.Commands.{sends, select_source}
use phono_console.Publisher.Steps.{steps, connection_made, started}
use phono_console.Music.{clamped}
use phono_console.Runtime.Output.{
  carry_out, House, Transition, output_mode_action, go_downstairs, start_session, played,
  restore_target, value_of,
}
use phono_console.Runtime.Hardware.{Devices, amplifier_set, activate_route, amplifier_answers}
use phono_console.Runtime.Hardware.Turns.{
  Change, turned, ma_set, route_entered, saved_after_all, elsewhere, local_phono_volume_kept,
}
use phono_console.Runtime.{
  Signals, Preparing, active_source, stop_grace, streams, distribution_available,
  distribution_capable,
}
use phono_console.Runtime.Distribution.{Authorised, tick_entering-Authorised}

abbrev streaming_phono : Signals
streaming_phono = record {
  has_publisher = true;
  has_client = true;
  phono_stop_pending = false;
  stream_healthy = true;
  connected = true;
  stream_requested = true;
  streaming = true;
  selected_source = some phono;
  ma_connected = true;
  console_playing = true;
  target_playing = true;
  has_timestamped_bluetooth = false;
}

abbrev local_status : Status
local_status = record {
  route = local_phono;
  phono_active = true;
  ma_playing = false;
  whole_house_requested = true;
  level_dbfs = negsuc 24;
  bluetooth_active = false;
  bluetooth_level_dbfs = negsuc 119;
  source = phono;
  distribution = ma_downstairs;
}

abbrev store : StateStore ℕ
store = record {
  max_events = 100;
  started_at = 0;
  last_status_at = some 10;
  status = some local_status;
  output_target = downstairs;
  routing_generation = 4;
  routing_phase = stable;
  routing_session_generation = some 4;
  routing_session_source = phono;
  routing_error = none;
  sendspin_source = 0;
  music_assistant = 0;
  bluetooth = 0;
  system = 0;
  input_levels = none;
  components = [];
  events = [];
}

available_test : distribution_available streaming_phono store ≡ true
unfolding distribution_available stop_grace streams whole_house_requested active_source
available_test = refl

old_session_test :
    distribution_available streaming_phono (record store { routing_generation = 5 }) ≡ false
unfolding distribution_available stop_grace streams whole_house_requested active_source
old_session_test = refl

capable_test : distribution_capable streaming_phono store bluetooth ≡ false
unfolding distribution_capable whole_house_requested
capable_test = refl

tick_entering-Authorised_example : Authorised streaming_phono store
tick_entering-Authorised_example =
    tick_entering-Authorised settings downstairs_ready 100 spinning streaming_phono store
      (sym available_test) enters is_new

abbrev preparing : Preparing
preparing = record { bluetooth_live = false; started = true; requested_after = true }

abbrev publishing : Publisher
publishing = steps (connection_made ∷ started sends none none ∷ []) (initial true true true none)

abbrev downstairs_house : House ℕ
downstairs_house = record { store = store; publisher = some publishing }

-- The stop of the players fails, and the play request finds no player.
abbrev rough : Transition ℕ
rough = record {
  sender = sends;
  others = λ k h. h;
  stop_error = some "timeout";
  has_client_id = true;
  bluetooth_live = false;
  capture = none;
  meanwhile = λ s. s;
  started = some false;
}

abbrev overtaken : Transition ℕ
overtaken = record rough { meanwhile = λ s. (set_output_target console true s).0 }

not_found_test :
    (output_mode_action "no player" PhonoOutputMode.downstairs rough
      downstairs_house).0.store.routing_error
    ≡ some "no player"
unfolding output_mode_action carry_out go_downstairs start_session played set_routing_state
    select_source steps active_source initial
not_found_test = refl

abbrev devices : Devices
devices = record {
  amplifier = record { enabled = true; volume_min = 10; volume_max = 60 };
  first_reply = some 12;
  second_reply = some 60;
  players = [];
  target = "Downstairs";
  reported_volume = none;
}

-- Music Assistant plays and is turned up in between.
abbrev in_between : List Change
in_between =
    route_entered (some 90) ma_playback
    ∷ turned (some (record local_status { route = ma_playback })) (pos 5)
    ∷ ma_set (some (record local_status { route = ma_playback })) 95
    ∷ []

local_phono_volume_kept_example :
    (activate_route devices
      (some 95)
      local_phono
      (saved_after_all devices (turned (some local_status) (negsuc 4) ∷ in_between) 40)).1
    ≡ amplifier_set 35 ∷ []
unfolding amplifier_answers elsewhere clamped ◌+ℤ◌
local_phono_volume_kept_example =
    local_phono_volume_kept devices (some local_status) (negsuc 4) 40 in_between (some 95) refl refl
      refl

restore_target_test :
    restore_target (some (value_of console)) false true OutputTarget.downstairs ≡ console
unfolding restore_target value_of
restore_target_test = refl
