-- ===== src/Policy/Tests.antt =====
-- Tests of src/phono_console/policy.py, and the properties at concrete observations.
use phono_console.Base.{◌≡◌, refl, ◌↔◌, true, false, some}
use phono_console.Policy.{
  local_phono, distributed_phono, phono, PhonoOutputMode, OutputTarget, downstairs, start,
  RoutingObservation, Inputs, reduce_routing, choose_route, distribution_confirmed, is_distributed,
}
use phono_console.Policy.Reduce.{Agrees, reduce_routing-distributed}

-- A record plays and every signal of session 7 agrees.
abbrev all_agree : RoutingObservation
all_agree = record {
  active_source = phono;
  ma_console_playing = true;
  ma_target_playing = true;
  ma_connected = true;
  sendspin_connected = true;
  sendspin_stream_requested = true;
  sendspin_streaming = true;
  sendspin_stream_healthy = true;
  distribution_capable = true;
  selected_source = phono;
  session_generation = some 7;
}

-- The same without a stream.
abbrev no_stream : RoutingObservation
no_stream = record all_agree { sendspin_streaming = false }

abbrev record_playing : Inputs
record_playing = record {
  phono_active = true;
  bluetooth_active = true;
  ma_playing = true;
  distribution_available = true;
  phono_output_mode = PhonoOutputMode.local;
}

confirmed_test : (reduce_routing downstairs all_agree 7 false).route ≡ distributed_phono
unfolding reduce_routing distribution_confirmed
confirmed_test = refl

stale_session_test : (reduce_routing downstairs all_agree 8 false).route ≡ local_phono
unfolding reduce_routing distribution_confirmed
stale_session_test = refl

starting_test : (reduce_routing downstairs no_stream 7 false).command ≡ start
unfolding reduce_routing distribution_confirmed
starting_test = refl

priority_test : choose_route record_playing ≡ local_phono
unfolding choose_route
priority_test = refl

reduce_routing-distributed_example :
    (is_distributed (reduce_routing downstairs all_agree 7 false).route ≡ true)
    ↔ ((OutputTarget.downstairs ≡ downstairs) × Agrees all_agree 7)
reduce_routing-distributed_example = reduce_routing-distributed downstairs all_agree 7 false
