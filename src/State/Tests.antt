-- ===== src/State/Tests.antt =====
-- Tests of src/phono_console/state.py, and the properties at a concrete store whose details are
-- numbers.
use text.Mathlib.TextEquality.{eq_iff}
use phono_console.Base.{
  ℕ, String, ◌≡◌, refl, ◌≢◌, Bool, true, false, none, some, List, [], ◌∷◌, ◌==◌,
}
use phono_console.Policy.{OutputTarget, console, stable, no_source}
use phono_console.State.{
  StateStore, failed, RecordedEvent, set_component, get_component, put_component, health_snapshot,
  with_status,
}
use phono_console.State.{set_output_target, emit, clear_input_levels, append_event}
use phono_console.State.Intent.{Operation, on_target, on_event, on_clear, act_all, act}

abbrev started : StateStore ℕ
started = record {
  max_events = 2;
  started_at = 0;
  last_status_at = some 10;
  status = none;
  output_target = console;
  routing_generation = 4;
  routing_phase = stable;
  routing_session_generation = none;
  routing_session_source = no_source;
  routing_error = none;
  sendspin_source = 0;
  music_assistant = 0;
  bluetooth = 0;
  system = 0;
  input_levels = none;
  components = [];
  events = [];
}

abbrev same : ℕ → ℕ → Bool
same old new = new == old

abbrev event : ℕ → RecordedEvent ℕ
event n = record { timestamp = n; event = "route_changed"; details = n }

abbrev capture_failed : StateStore ℕ
capture_failed = record started {
  components =
      ("capture", record { status = failed; message = "no device"; details = 0; updated_at = 12 })
      ∷ [];
}

failed_test :
    set_component same "capture" (some failed) "no device" 0 12 started ≡ some capture_failed
unfolding set_component get_component put_component
failed_test = refl

kept_time_test :
    set_component same "capture" (some failed) "no device" 0 15 capture_failed ≡ some capture_failed
unfolding set_component get_component put_component
kept_time_test = refl

health_test : (health_snapshot 3 11 capture_failed).operational ≡ false
unfolding health_snapshot with_status
health_test = refl

abbrev operations : List (Operation ℕ)
operations =
    on_target OutputTarget.downstairs true
    ∷ on_event "a" 1 5
    ∷ on_event "b" 2 6
    ∷ on_clear
    ∷ on_event "c" 3 7
    ∷ []

choices_test : (act_all same operations started).routing_generation ≡ 5
unfolding act_all act set_output_target emit clear_input_levels append_event
choices_test = refl

apart : ◌≢◌ {A = String} "capture" "amplifier"
apart h = cc ((eq_iff "capture" "amplifier").1 h)
