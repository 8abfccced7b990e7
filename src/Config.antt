-- ===== src/Config.antt =====
-- src/phono_console/config.py: the settings and `_validate`.
--
-- An `int` setting is an integer. A `float` setting is an integer number of thousandths (of a
-- decibel or a second): the checks only compare them with whole numbers; `nan` is not modelled. A
-- string is the list of its code points, where a check looks inside it, and `String` elsewhere. The
-- `ValueError` of a check is a constructor of `ConfigError`.
pub mod Validity
pub mod Valid
pub mod Checks
pub mod Validation
pub mod Address
pub mod Uses
pub mod Tests
use phono_console.Base.{
  ℕ, zero, suc, ◌+◌, ◌-◌, ◌*◌, ◌/◌, ◌%◌, ◌^◌, ◌≤◌, ◌<◌, String, ◌≡◌, refl, sym, ap, ◌∙◌, subst, ◌≢◌,
  ◌↔◌, ◌⊎◌, inl, inr, Bool, true, false, not, ◌&&◌, ◌||◌, Option, none, some, List, [], ◌∷◌, ◌++◌,
  map, arith, ltb, leb, ◌==◌, if◌then◌else◌, leb→le, ==_iff, Bool-cases, Option-cases, is_some,
  length, take, drop, length-append, length-drop, All, All-append, take-append, drop-append,
  take-append-drop, length-take, take-add, take_last, drop-append_le, drop-drop, take_last-append,
  All-take, All-drop, ℤ, pos, negsuc, pos_part, neg_part, sub_ℕ, ◌+ℤ◌, ◌-ℤ◌, ◌≤ℤ◌, leb_ℤ, ltb_ℤ,
  +ℤ_parts, -ℤ_parts, eq_of_parts, int_laws,
}

abbrev pub Text : Type 0
Text = List ℕ

pub record AudioConfig : Type 0 where
  pub capture_device : String
  pub playback_device : String
  pub target_latency_ms : ℤ
  pub sample_rate : ℤ
  pub channels : ℤ
  pub detection_window_ms : ℤ

pub record DetectionConfig : Type 0 where
  pub phono_threshold_dbfs : ℤ
  pub attack_ms : ℤ
  pub release_ms : ℤ
  pub hysteresis_db : ℤ
  pub needle_drop_peak_dbfs : ℤ

pub record BluetoothConfig : Type 0 where
  pub enabled : Bool
  pub capture_device : String
  pub threshold_dbfs : ℤ
  pub attack_ms : ℤ
  pub release_ms : ℤ
  pub adapter : String
  pub alias : String
  pub pairing_window_seconds : ℤ
  pub volume_min : ℤ
  pub volume_max : ℤ

pub record RoutingConfig : Type 0 where
  pub distribution_target : Text
  pub local_fallback_enabled : Bool
  pub distribution_recovery_hold_ms : ℤ
  pub distribution_start_timeout_ms : ℤ
  pub phono_mode_sticky_minutes : ℤ

pub record MusicAssistantConfig : Type 0 where
  pub base_url : String
  pub console_player : String
  pub vinyl_source : String
  pub token_env : String
  pub whole_house_players : List Text

pub record SendspinConfig : Type 0 where
  pub server_url : String
  pub player_name : String
  pub source_name : String
  pub source_enabled : Bool
  pub state_dir : Text
  pub phono_gain_db : ℤ
  pub bluetooth_gain_db : ℤ
  pub limiter_ceiling_dbfs : ℤ
  pub limiter_release_ms : ℤ
  pub source_timeline_lead_ms : ℤ

pub record RuntimeConfig : Type 0 where
  pub poll_interval_ms : ℤ
  pub api_host : String
  pub api_port : ℤ

pub data Backend : Type 0 where
  legacy timestamped : Backend
  other_backend : String → Backend

pub record AudioEngineConfig : Type 0 where
  pub backend : Backend
  pub socket_path : Text
  pub frame_ms : ℤ
  pub output_prebuffer_ms : ℤ
  pub route_fade_ms : ℤ
  pub max_soft_correction_ppm : ℤ
  pub queue_frames : ℤ

pub record AmplifierConfig : Type 0 where
  pub enabled : Bool
  pub cec_device : Text
  pub logical_address : ℤ
  pub wake_on_audio : Bool
  pub physical_address : Text
  pub wake_settle_seconds : ℤ
  pub volume_min : ℤ
  pub volume_max : ℤ
  pub local_phono_volume : ℤ

pub record ControlsConfig : Type 0 where
  pub enabled : Bool
  pub encoder_a_gpio : ℤ
  pub encoder_b_gpio : ℤ
  pub encoder_button_gpio : ℤ
  pub volume_step : ℤ
  pub reverse : Bool
  pub encoder_bounce_ms : ℤ
  pub button_bounce_ms : ℤ

pub record Config : Type 0 where
  pub audio : AudioConfig
  pub detection : DetectionConfig
  pub music_assistant : MusicAssistantConfig
  pub sendspin : SendspinConfig
  pub bluetooth : BluetoothConfig
  pub routing : RoutingConfig
  pub runtime : RuntimeConfig
  pub audio_engine : AudioEngineConfig
  pub amplifier : AmplifierConfig
  pub controls : ControlsConfig
