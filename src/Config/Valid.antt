-- ===== src/Config/Valid.antt =====
-- What the settings satisfy that `_validate` (src/phono_console/config.py) lets through.
use phono_console.Base.{◌≡◌, ◌≢◌, ◌⊎◌, true, false, [], ◌∷◌, All, ℤ, pos, negsuc, ◌+ℤ◌, ◌≤ℤ◌}
use phono_console.Config.{
  Text, AudioConfig, DetectionConfig, BluetoothConfig, RoutingConfig, SendspinConfig, RuntimeConfig,
  legacy, timestamped, AudioEngineConfig, AmplifierConfig, ControlsConfig, Config,
}
use phono_console.Config.Validity.{is_address}

-- lo ≤ v ≤ hi
pub record Within (lo hi v : ℤ) : Type 0 where
  pub at_least : lo ≤ℤ v
  pub at_most : v ≤ℤ hi

pub record ValidAudio (a : AudioConfig) : Type 0 where
  pub latency : Within (pos 10) (pos 500) a.target_latency_ms
  pub rate : pos 1 ≤ℤ a.sample_rate
  pub channels : (a.channels ≡ pos 1) ⊎ (a.channels ≡ pos 2)
  pub window : Within (pos 10) (pos 1000) a.detection_window_ms

pub record ValidDetection (d : DetectionConfig) : Type 0 where
  pub attack : pos 0 ≤ℤ d.attack_ms
  pub release : pos 0 ≤ℤ d.release_ms
  pub hysteresis : pos 0 ≤ℤ d.hysteresis_db
  pub peak : Within (negsuc 119999) (pos 0) d.needle_drop_peak_dbfs

-- 0 ≤ volume_min < volume_max ≤ 100
pub record VolumeRange (low high : ℤ) : Type 0 where
  pub low_end : pos 0 ≤ℤ low
  pub nonempty : low +ℤ pos 1 ≤ℤ high
  pub high_end : high ≤ℤ pos 100

pub record ValidBluetooth (b : BluetoothConfig) : Type 0 where
  pub attack : pos 0 ≤ℤ b.attack_ms
  pub release : pos 0 ≤ℤ b.release_ms
  pub window : Within (pos 10) (pos 600) b.pairing_window_seconds
  pub volume : VolumeRange b.volume_min b.volume_max

pub record ValidRouting (r : RoutingConfig) : Type 0 where
  pub target : r.distribution_target ≢ []
  pub hold : pos 0 ≤ℤ r.distribution_recovery_hold_ms
  pub timeout : Within (pos 500) (pos 30000) r.distribution_start_timeout_ms
  pub sticky : Within (pos 5) (pos 1440) r.phono_mode_sticky_minutes

pub record ValidRuntime (r : RuntimeConfig) : Type 0 where
  pub poll : Within (pos 10) (pos 5000) r.poll_interval_ms
  pub port : Within (pos 1) (pos 65535) r.api_port

pub record ValidSendspin (s : SendspinConfig) : Type 0 where
  pub state : (s.source_enabled ≡ false) ⊎ (s.state_dir ≢ [])
  pub phono : Within (negsuc 23999) (pos 24000) s.phono_gain_db
  pub bluetooth : Within (negsuc 23999) (pos 24000) s.bluetooth_gain_db
  pub ceiling : Within (negsuc 11999) (pos 0) s.limiter_ceiling_dbfs
  pub release : Within (pos 10) (pos 5000) s.limiter_release_ms
  pub lead : Within (pos 0) (pos 10000) s.source_timeline_lead_ms

-- A path that begins with a slash.
abbrev pub IsAbsolute : Text → Type 0
IsAbsolute path = (rest : Text) × (path ≡ 47 ∷ rest)

pub record ValidEngine (e : AudioEngineConfig) : Type 0 where
  pub backend : (e.backend ≡ legacy) ⊎ (e.backend ≡ timestamped)
  pub socket : IsAbsolute e.socket_path
  pub frame : (e.frame_ms ≡ pos 10) ⊎ (e.frame_ms ≡ pos 20) ⊎ (e.frame_ms ≡ pos 40)
  pub prebuffer : e.frame_ms ≤ℤ e.output_prebuffer_ms
  pub fade : Within (pos 0) (pos 100) e.route_fade_ms
  pub correction : Within (pos 1) (pos 1000) e.max_soft_correction_ppm
  pub queue : Within (pos 2) (pos 500) e.queue_frames

pub record ValidAmplifier (a : AmplifierConfig) : Type 0 where
  pub device : IsAbsolute a.cec_device
  pub logical : Within (pos 0) (pos 15) a.logical_address
  pub physical : is_address a.physical_address ≡ true
  pub settle : Within (pos 0) (pos 30000) a.wake_settle_seconds
  pub volume : VolumeRange a.volume_min a.volume_max
  pub local_volume : Within (pos 0) (pos 100) a.local_phono_volume

pub record ValidControls (c : ControlsConfig) : Type 0 where
  pub pin_a : Within (pos 0) (pos 27) c.encoder_a_gpio
  pub pin_b : Within (pos 0) (pos 27) c.encoder_b_gpio
  pub pin_button : Within (pos 0) (pos 27) c.encoder_button_gpio
  pub a_not_b : c.encoder_a_gpio ≢ c.encoder_b_gpio
  pub a_not_button : c.encoder_a_gpio ≢ c.encoder_button_gpio
  pub b_not_button : c.encoder_b_gpio ≢ c.encoder_button_gpio
  pub step : Within (pos 1) (pos 10) c.volume_step
  pub encoder_bounce : Within (pos 0) (pos 50) c.encoder_bounce_ms
  pub button_bounce : Within (pos 0) (pos 500) c.button_bounce_ms

pub record ValidConfig (c : Config) : Type 0 where
  pub audio : ValidAudio c.audio
  pub detection : ValidDetection c.detection
  pub bluetooth : ValidBluetooth c.bluetooth
  pub routing : ValidRouting c.routing
  pub runtime : ValidRuntime c.runtime
  pub players : All (λ (t : Text). t ≢ []) c.music_assistant.whole_house_players
  pub sendspin : ValidSendspin c.sendspin
  pub engine : ValidEngine c.audio_engine
  pub amplifier : ValidAmplifier c.amplifier
  pub controls : ValidControls c.controls
