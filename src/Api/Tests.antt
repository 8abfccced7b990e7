-- ===== src/Api/Tests.antt =====
-- Tests of src/phono_console/api.py, and the properties at concrete requests.
use mathlib.Core.Option
use phono_console.Base.{ℕ, ◌≡◌, refl, true, false, none, some, List, [], ◌∷◌, ◌==◌, pos, negsuc}
use phono_console.Policy.{
  OutputTarget, console, PhonoOutputMode, Source, phono, stable, local_phono, ma_downstairs,
}
use phono_console.Controller.{Status}
use phono_console.State.{StateStore, set_output_target}
use phono_console.Publisher.{initial}
use phono_console.Publisher.Commands.{sends}
use phono_console.Publisher.Steps.{Step, steps, connection_made, started}
use phono_console.Publisher.Steps.Quiet.{all_local}
use phono_console.State.Intent.{Operation, on_target, on_event, act_all}
use phono_console.Runtime.{active_source}
use phono_console.Runtime.Output.{
  House, Transition, output_mode_action, carry_out, go_downstairs, start_session, played,
}
use phono_console.Runtime.Output.Choice.{quiet_publisher}
use phono_console.Api.{
  word, integer, ok, unauthorized, returns, authenticate, bluetooth_device, requested_volume,
  output_mode,
}
use phono_console.Api.Output.{Request, set_canonical_output, answer, locked}
use phono_console.Api.Output.Choices.{persists, failed_choice}
use phono_console.Api.Output.Quiet.{set_canonical_output-quiet}

unauthorized_test :
    authenticate ("/" ∷ []) (λ t. t) (some "secret") "/v1/status" "guess" ≡ some unauthorized
unfolding authenticate
unauthorized_test = refl

forget_test :
    bluetooth_device (some (λ c a. returns)) (word "AA:BB") (word "forget")
    ≡ (ok, some ("remove", "AA:BB"))
unfolding bluetooth_device
forget_test = refl

volume_test : requested_volume (integer (pos 101)) ≡ none
unfolding requested_volume
volume_test = refl

mode_test : output_mode (word "downstairs") ≡ some PhonoOutputMode.downstairs
unfolding output_mode
mode_test = refl

abbrev spinning : Status
spinning = record {
  route = local_phono;
  phono_active = true;
  ma_playing = false;
  whole_house_requested = false;
  level_dbfs = negsuc 24;
  bluetooth_active = false;
  bluetooth_level_dbfs = negsuc 119;
  source = phono;
  distribution = ma_downstairs;
}

abbrev store : StateStore ℕ
store = record {
  max_events = 100;
  started_at = 0;
  last_status_at = some 10;
  status = some spinning;
  output_target = console;
  routing_generation = 4;
  routing_phase = stable;
  routing_session_generation = none;
  routing_session_source = Source.no_source;
  routing_error = none;
  sendspin_source = 0;
  music_assistant = 0;
  bluetooth = 0;
  system = 0;
  input_levels = none;
  components = [];
  events = [];
}

abbrev house : House ℕ
house = record {
  store = store;
  publisher =
      some (steps (connection_made ∷ started sends none none ∷ []) (initial true true true none));
}

-- In each wait of a choice of the console the server starts the stream.
abbrev server_starts : ℕ → List Step
server_starts k = started sends none none ∷ []

-- Music Assistant raises.
abbrev ma_down : Transition ℕ
ma_down = record {
  sender = sends;
  others = λ k h. record h { publisher = Option.map (steps (server_starts k)) h.publisher };
  stop_error = some "timeout";
  has_client_id = true;
  bluetooth_live = false;
  capture = none;
  meanwhile = λ s. s;
  started = none;
}

abbrev request : Request ℕ
request = record { available = true; waiting = λ h. h; details = 0; now = 20 }

failed_choice_example :
    (set_canonical_output "no player" request PhonoOutputMode.downstairs ma_down
        house).0.store.output_target
      ≡ console
    × persists (set_canonical_output "no player" request PhonoOutputMode.downstairs ma_down house).1
      ≡ true
unfolding set_canonical_output locked output_mode_action carry_out go_downstairs start_session
    played answer set_output_target steps initial active_source
failed_choice_example = failed_choice "no player" request ma_down house (λ s. refl) refl

set_canonical_output-quiet_example :
    (set_canonical_output "no player" request PhonoOutputMode.local ma_down house).2 ≡ ok
    × quiet_publisher
        (set_canonical_output "no player" request PhonoOutputMode.local ma_down house).0.publisher
      ≡ true
    × (set_canonical_output "no player" request PhonoOutputMode.local ma_down
        house).0.store.output_target
      ≡ console
    × (set_canonical_output "no player" request PhonoOutputMode.local ma_down
        house).0.store.routing_phase
      ≡ stable
unfolding set_output_target all_local
set_canonical_output-quiet_example =
    set_canonical_output-quiet ma_down server_starts (λ k. refl) (λ k h. refl) (λ k h. refl)
      "no player" request house refl refl

-- Before the lock is free, Downstairs is chosen again and an event is logged.
abbrev overtaking : List (Operation ℕ)
overtaking = on_target OutputTarget.downstairs true ∷ on_event "output_mode_changed" 0 15 ∷ []

abbrev overtaken : Request ℕ
overtaken = record request { waiting = λ h. record h { store = act_all ◌==◌ overtaking h.store } }
