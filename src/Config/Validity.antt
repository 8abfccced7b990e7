-- ===== src/Config/Validity.antt =====
-- `_validate` of src/phono_console/config.py, section by section in its order.
use phono_console.Base.{
  ℕ, Bool, true, false, not, ◌&&◌, ◌||◌, Option, none, some, List, [], ◌∷◌, ◌++◌, leb, ◌==◌,
  if◌then◌else◌, length, ℤ, pos, negsuc, leb_ℤ, ltb_ℤ,
}
use phono_console.Config.{
  Text, AudioConfig, DetectionConfig, BluetoothConfig, RoutingConfig, MusicAssistantConfig,
  SendspinConfig, RuntimeConfig, Backend, legacy, timestamped, AudioEngineConfig, AmplifierConfig,
  ControlsConfig, Config,
}

pub data ConfigError : Type 0 where
  target_latency sample_rate_or_channels detection_window : ConfigError
  detection_times hysteresis needle_drop_peak : ConfigError
  bluetooth_times pairing_window bluetooth_volume : ConfigError
  no_target recovery_hold start_timeout sticky_minutes : ConfigError
  poll_interval api_port : ConfigError
  empty_player : ConfigError
  no_state_dir phono_gain bluetooth_gain limiter_ceiling limiter_release timeline_lead : ConfigError
  backend socket_path frame_size prebuffer route_fade soft_correction queue_frames : ConfigError
  cec_device logical_address physical_address wake_settle amplifier_volume local_volume :
      ConfigError
  pins_out_of_range pins_repeated volume_step encoder_bounce button_bounce : ConfigError

-- A check raises its error if its test is true.
abbrev pub Check : Type 0
Check = Bool × ConfigError

unfoldable pub first_error : List Check → Option ConfigError
first_error [] = none
first_error ((raises, e) ∷ rest) = if raises then some e else first_error rest

-- `not lo <= v <= hi`
abbrev pub outside : ℤ → ℤ → ℤ → Bool
outside lo hi v = not (leb_ℤ lo v && leb_ℤ v hi)

abbrev pub negative : ℤ → Bool
negative v = ltb_ℤ v (pos 0)

abbrev pub is_ℤ : ℤ → ℤ → Bool
is_ℤ a b = leb_ℤ a b && leb_ℤ b a

abbrev pub is_empty {ℓ} : {A : Type ℓ} → List A → Bool
is_empty [] = true
is_empty (x ∷ xs) = false

abbrev pub all_nonempty : List Text → Bool
all_nonempty [] = true
all_nonempty (t ∷ ts) = not (is_empty t) && all_nonempty ts

-- `startswith("/")`
abbrev pub is_absolute : Text → Bool
is_absolute [] = false
is_absolute (c ∷ cs) = c == 47

-- `part.lower() in "0123456789abcdef"` for one character.
abbrev pub is_hex : ℕ → Bool
is_hex c = (leb 48 c && leb c 57) || ((leb 97 c && leb c 102) || (leb 65 c && leb c 70))

-- `split(".")`: always at least one part.
unfoldable pub split_dots : Text → List Text
split_dots [] = [] ∷ []
split_dots (c ∷ cs) =
    let rest = split_dots cs in
    if c == 46 then [] ∷ rest else elim rest [ [] ↦ (c ∷ []) ∷ [] | p ∷ ps ↦ (c ∷ p) ∷ ps ]

abbrev pub is_nibble : Text → Bool
is_nibble (c ∷ []) = is_hex c
is_nibble _ = false

abbrev pub all_nibbles : List Text → Bool
all_nibbles [] = true
all_nibbles (p ∷ ps) = is_nibble p && all_nibbles ps

unfoldable pub is_address : Text → Bool
is_address address = (length (split_dots address) == 4) && all_nibbles (split_dots address)

abbrev is_known : Backend → Bool
is_known legacy = true
is_known timestamped = true
is_known _ = false

unfoldable pub audio_checks : AudioConfig → List Check
audio_checks a =
    (outside (pos 10) (pos 500) a.target_latency_ms, target_latency)
    ∷ (
      leb_ℤ a.sample_rate (pos 0) || not (is_ℤ a.channels (pos 1) || is_ℤ a.channels (pos 2)),
      sample_rate_or_channels,
    )
    ∷ (outside (pos 10) (pos 1000) a.detection_window_ms, detection_window)
    ∷ []

unfoldable pub detection_checks : DetectionConfig → List Check
detection_checks d =
    (negative d.attack_ms || negative d.release_ms, detection_times)
    ∷ (negative d.hysteresis_db, hysteresis)
    ∷ (outside (negsuc 119999) (pos 0) d.needle_drop_peak_dbfs, needle_drop_peak)
    ∷ []

unfoldable pub bluetooth_checks : BluetoothConfig → List Check
bluetooth_checks b =
    (negative b.attack_ms || negative b.release_ms, bluetooth_times)
    ∷ (outside (pos 10) (pos 600) b.pairing_window_seconds, pairing_window)
    ∷ (
      not (
          leb_ℤ (pos 0) b.volume_min
          && (ltb_ℤ b.volume_min b.volume_max && leb_ℤ b.volume_max (pos 100))),
      bluetooth_volume,
    )
    ∷ []

unfoldable pub routing_checks : RoutingConfig → List Check
routing_checks r =
    (is_empty r.distribution_target, no_target)
    ∷ (negative r.distribution_recovery_hold_ms, recovery_hold)
    ∷ (outside (pos 500) (pos 30000) r.distribution_start_timeout_ms, start_timeout)
    ∷ (outside (pos 5) (pos 1440) r.phono_mode_sticky_minutes, sticky_minutes)
    ∷ []

unfoldable pub runtime_checks : RuntimeConfig → List Check
runtime_checks r =
    (outside (pos 10) (pos 5000) r.poll_interval_ms, poll_interval)
    ∷ (outside (pos 1) (pos 65535) r.api_port, api_port)
    ∷ []

unfoldable pub music_assistant_checks : MusicAssistantConfig → List Check
music_assistant_checks m = (not (all_nonempty m.whole_house_players), empty_player) ∷ []

unfoldable pub sendspin_checks : SendspinConfig → List Check
sendspin_checks s =
    (s.source_enabled && is_empty s.state_dir, no_state_dir)
    ∷ (outside (negsuc 23999) (pos 24000) s.phono_gain_db, phono_gain)
    ∷ (outside (negsuc 23999) (pos 24000) s.bluetooth_gain_db, bluetooth_gain)
    ∷ (outside (negsuc 11999) (pos 0) s.limiter_ceiling_dbfs, limiter_ceiling)
    ∷ (outside (pos 10) (pos 5000) s.limiter_release_ms, limiter_release)
    ∷ (outside (pos 0) (pos 10000) s.source_timeline_lead_ms, timeline_lead)
    ∷ []

unfoldable pub audio_engine_checks : AudioEngineConfig → List Check
audio_engine_checks e =
    (not (is_known e.backend), backend)
    ∷ (not (is_absolute e.socket_path), socket_path)
    ∷ (
      not (is_ℤ e.frame_ms (pos 10) || (is_ℤ e.frame_ms (pos 20) || is_ℤ e.frame_ms (pos 40))),
      frame_size,
    )
    ∷ (ltb_ℤ e.output_prebuffer_ms e.frame_ms, prebuffer)
    ∷ (outside (pos 0) (pos 100) e.route_fade_ms, route_fade)
    ∷ (outside (pos 1) (pos 1000) e.max_soft_correction_ppm, soft_correction)
    ∷ (outside (pos 2) (pos 500) e.queue_frames, queue_frames)
    ∷ []

unfoldable pub amplifier_checks : AmplifierConfig → List Check
amplifier_checks a =
    (not (is_absolute a.cec_device), cec_device)
    ∷ (outside (pos 0) (pos 15) a.logical_address, logical_address)
    ∷ (not (is_address a.physical_address), physical_address)
    ∷ (outside (pos 0) (pos 30000) a.wake_settle_seconds, wake_settle)
    ∷ (
      not (
          leb_ℤ (pos 0) a.volume_min
          && (ltb_ℤ a.volume_min a.volume_max && leb_ℤ a.volume_max (pos 100))),
      amplifier_volume,
    )
    ∷ (outside (pos 0) (pos 100) a.local_phono_volume, local_volume)
    ∷ []

abbrev bad_pin : ℤ → Bool
bad_pin pin = outside (pos 0) (pos 27) pin

unfoldable pub controls_checks : ControlsConfig → List Check
controls_checks c =
    (
      bad_pin c.encoder_a_gpio || (bad_pin c.encoder_b_gpio || bad_pin c.encoder_button_gpio),
      pins_out_of_range,
    )
    ∷ (
      is_ℤ c.encoder_a_gpio c.encoder_b_gpio
          || (is_ℤ c.encoder_a_gpio c.encoder_button_gpio
              || is_ℤ c.encoder_b_gpio c.encoder_button_gpio),
      pins_repeated,
    )
    ∷ (outside (pos 1) (pos 10) c.volume_step, volume_step)
    ∷ (outside (pos 0) (pos 50) c.encoder_bounce_ms, encoder_bounce)
    ∷ (outside (pos 0) (pos 500) c.button_bounce_ms, button_bounce)
    ∷ []

-- The checks in their order.
unfoldable pub checks : Config → List Check
checks c =
    audio_checks c.audio
    ++ (detection_checks c.detection
        ++ (bluetooth_checks c.bluetooth
            ++ (routing_checks c.routing
                ++ (runtime_checks c.runtime
                    ++ (music_assistant_checks c.music_assistant
                        ++ (sendspin_checks c.sendspin
                            ++ (audio_engine_checks c.audio_engine
                                ++ (amplifier_checks c.amplifier
                                    ++ controls_checks c.controls))))))))

-- `_validate`: the error that is raised.
unfoldable pub validate : Config → Option ConfigError
validate c = first_error (checks c)
