-- ===== src/Config/Tests.antt =====
-- Tests of src/phono_console/config.py, and the properties at the default settings.
use phono_console.Base.{◌≡◌, refl, ◌↔◌, true, false, none, some, [], ◌∷◌, pos, negsuc}
use phono_console.Config.{Text, Config, legacy}
use phono_console.Config.Validity.{
  validate, first_error, checks, pins_repeated, is_address, split_dots, audio_checks,
  detection_checks, bluetooth_checks, routing_checks, runtime_checks, music_assistant_checks,
  sendspin_checks, audio_engine_checks, amplifier_checks, controls_checks,
}
use phono_console.Config.Valid.{ValidConfig}
use phono_console.Config.Validation.{validate-ValidConfig}

-- "1.0.0.0"
abbrev address : Text
address = 49 ∷ 46 ∷ 48 ∷ 46 ∷ 48 ∷ 46 ∷ 48 ∷ []

-- "/dev"
abbrev path : Text
path = 47 ∷ 100 ∷ 101 ∷ 118 ∷ []

-- The defaults of the dataclasses, and plausible values for what is required.
abbrev defaults : Config
defaults = record {
  audio = record {
    capture_device = "hw:1";
    playback_device = "hw:0";
    target_latency_ms = pos 50;
    sample_rate = pos 48000;
    channels = pos 2;
    detection_window_ms = pos 100;
  };
  detection = record {
    phono_threshold_dbfs = negsuc 49999;
    attack_ms = pos 200;
    release_ms = pos 10000;
    hysteresis_db = pos 3000;
    needle_drop_peak_dbfs = negsuc 44999;
  };
  music_assistant = record {
    base_url = "http://ma.local:8095";
    console_player = "console";
    vinyl_source = "vinyl";
    token_env = "PHONO_CONSOLE_MA_TOKEN";
    whole_house_players = (68 ∷ []) ∷ [];
  };
  sendspin = record {
    server_url = "ws://ma.local";
    player_name = "console";
    source_name = "turntable";
    source_enabled = false;
    state_dir = path;
    phono_gain_db = pos 6000;
    bluetooth_gain_db = pos 6000;
    limiter_ceiling_dbfs = negsuc 999;
    limiter_release_ms = pos 250;
    source_timeline_lead_ms = pos 3000;
  };
  bluetooth = record {
    enabled = false;
    capture_device = "bluealsa";
    threshold_dbfs = negsuc 59999;
    attack_ms = pos 200;
    release_ms = pos 2000;
    adapter = "hci0";
    alias = "PhonoConsole";
    pairing_window_seconds = pos 120;
    volume_min = pos 20;
    volume_max = pos 80;
  };
  routing = record {
    distribution_target = 68 ∷ [];
    local_fallback_enabled = true;
    distribution_recovery_hold_ms = pos 10000;
    distribution_start_timeout_ms = pos 5000;
    phono_mode_sticky_minutes = pos 60;
  };
  runtime = record { poll_interval_ms = pos 100; api_host = "0.0.0.0"; api_port = pos 8765 };
  audio_engine = record {
    backend = legacy;
    socket_path = path;
    frame_ms = pos 20;
    output_prebuffer_ms = pos 80;
    route_fade_ms = pos 8;
    max_soft_correction_ppm = pos 250;
    queue_frames = pos 50;
  };
  amplifier = record {
    enabled = true;
    cec_device = path;
    logical_address = pos 5;
    wake_on_audio = true;
    physical_address = address;
    wake_settle_seconds = pos 0;
    volume_min = pos 15;
    volume_max = pos 45;
    local_phono_volume = pos 50;
  };
  controls = record {
    enabled = false;
    encoder_a_gpio = pos 17;
    encoder_b_gpio = pos 27;
    encoder_button_gpio = pos 22;
    volume_step = pos 2;
    reverse = false;
    encoder_bounce_ms = pos 2;
    button_bounce_ms = pos 40;
  };
}

-- Two functions on one pin.
abbrev shared_pin : Config
shared_pin = record defaults { controls = record defaults.controls { encoder_b_gpio = pos 22 } }

defaults_valid : validate defaults ≡ none
unfolding validate first_error checks is_address split_dots audio_checks detection_checks
    bluetooth_checks routing_checks runtime_checks music_assistant_checks sendspin_checks
    audio_engine_checks amplifier_checks controls_checks
defaults_valid = refl

shared_pin_test : validate shared_pin ≡ some pins_repeated
unfolding validate first_error checks is_address split_dots audio_checks detection_checks
    bluetooth_checks routing_checks runtime_checks music_assistant_checks sendspin_checks
    audio_engine_checks amplifier_checks controls_checks
shared_pin_test = refl

short_address_test : is_address (49 ∷ 46 ∷ 48 ∷ []) ≡ false
unfolding is_address split_dots
short_address_test = refl

validate-ValidConfig_example : (validate defaults ≡ none) ↔ ValidConfig defaults
validate-ValidConfig_example = validate-ValidConfig defaults
