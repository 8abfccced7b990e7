-- ===== src/Config/Uses.antt =====
-- What a configuration that `load_config` (src/phono_console/config.py) returns gives to the frame
-- queues of src/phono_console/audio_engine_client.py and to the volume scales of
-- src/phono_console/amplifier.py.
use phono_console.Base.{ℕ, ◌≤◌, ◌<◌, ◌≡◌, true, none, arith, is_some, ℤ, pos_part, ◌+ℤ◌}
use phono_console.Fanout.{new_fanout}
use phono_console.Amplifier.{span, logical_to_cec, cec_to_logical}
use phono_console.Amplifier
use phono_console.Amplifier.Volume.{logical_to_cec_bounds, cec_to_logical_bounds}
use phono_console.Config.{Config, AmplifierConfig}
use phono_console.Config.Validity.{validate}
use phono_console.Config.Valid.{VolumeRange}
use phono_console.Config.Validation.{validate-ValidConfig}

-- The settings as the amplifier's code reads them.
abbrev pub scales : AmplifierConfig → Amplifier.AmplifierConfig
scales a = record {
  enabled = a.enabled;
  volume_min = pos_part a.volume_min;
  volume_max = pos_part a.volume_max;
}

new_fanout-some : (n : ℕ) → 2 ≤ n → is_some (new_fanout n) ≡ true
unfolding new_fanout
new_fanout-some n h = ground arith

-- With a validated configuration the constructor of the frame queues does not raise.
pub new_fanout-validate :
    (c : Config)
    → validate c ≡ none
    → is_some (new_fanout (pos_part c.audio_engine.queue_frames)) ≡ true
new_fanout-validate c h =
    let v = (validate-ValidConfig c).0 h in
    new_fanout-some _ (omega (arith, v.engine.queue.at_least))

range_of :
    (low high : ℤ) → VolumeRange low high → (pos_part low < pos_part high) × (pos_part high ≤ 100)
unfolding ◌+ℤ◌
range_of low high r = ground (arith, r.low_end, r.nonempty, r.high_end)

-- With a validated configuration every requested volume, in or out of the scale, is sent as a level
-- between the configured ends and at most 100, and every reported level, in or out of the range, is
-- read as a volume from 1 to 100.
pub volumes-validate :
    (c : Config) (v w : ℤ)
    → validate c ≡ none
    → (pos_part c.amplifier.volume_min ≤ logical_to_cec (scales c.amplifier) v)
      × (logical_to_cec (scales c.amplifier) v ≤ pos_part c.amplifier.volume_max)
      × (logical_to_cec (scales c.amplifier) v ≤ 100)
      × (1 ≤ cec_to_logical (scales c.amplifier) w)
      × (cec_to_logical (scales c.amplifier) w ≤ 100)
volumes-validate c v w h =
    let range = ((validate-ValidConfig c).0 h).amplifier.volume in
    let (order, top) = range_of c.amplifier.volume_min c.amplifier.volume_max range in
    let (low, high) = logical_to_cec_bounds (scales c.amplifier) v (omega arith) in
    let (one, hundred) = cec_to_logical_bounds (scales c.amplifier) w order in
    (low, high, omega arith, one, hundred)
