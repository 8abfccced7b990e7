-- ===== src/Amplifier/Tests.antt =====
-- Tests of src/phono_console/amplifier.py, and the properties at a concrete range.
use phono_console.Base.{◌+◌, ◌≡◌, refl, true, false, none, some, List, [], ◌∷◌, arith, pos}
use phono_console.Amplifier.{
  AmplifierConfig, logical_to_cec, cec_to_logical, round_div, clamp, Command, down, mute, press,
  release, adjust, level_keys, presses, set_volume, disabled, reported, give_audio_status,
}
use phono_console.Amplifier.Power.{
  Reply, power_on, poll, polls, outcome, woken, active_source, audio_mode, give_power_status,
}
use phono_console.Amplifier.Power.Polls.{sends_within, power_on-ends}
use phono_console.Base.{ℕ, if◌then◌else◌, ◌==◌}
use phono_console.Amplifier.Volume.{logical_to_cec-cec_to_logical}

abbrev quiet_range : AmplifierConfig
quiet_range = record { enabled = true; volume_min = 10; volume_max = 60 }

middle_test : logical_to_cec quiet_range (pos 50) ≡ 35
unfolding logical_to_cec round_div clamp
middle_test = refl

back_test : cec_to_logical quiet_range (pos 35) ≡ 50
unfolding cec_to_logical round_div clamp
back_test = refl

keys_test :
    adjust quiet_range 1 (128 + 12)
    ≡ press mute ∷ release ∷ press down ∷ release ∷ press down ∷ release ∷ []
unfolding adjust logical_to_cec round_div clamp level_keys presses
keys_test = refl

set_volume_test :
    set_volume quiet_range (pos 1) (some 10) (some 10)
    ≡ reported (give_audio_status ∷ give_audio_status ∷ []) 1 false
unfolding set_volume adjust logical_to_cec cec_to_logical round_div clamp level_keys presses
set_volume_test = refl

disabled_test : set_volume (record quiet_range { enabled = false }) (pos 1) none none ≡ disabled
unfolding set_volume
disabled_test = refl

logical_to_cec-cec_to_logical_example :
    logical_to_cec quiet_range (pos (cec_to_logical quiet_range (pos 35))) ≡ 35
logical_to_cec-cec_to_logical_example =
    logical_to_cec-cec_to_logical quiet_range 35 (omega arith) (omega arith) (omega arith)
      (omega arith)

abbrev sent : List Command
sent = adjust quiet_range 50 (128 + 12)

-- The receiver answers after 100 ms each, and is on at the third poll.
abbrev sleepy : ℕ → Reply
sleepy n = record { elapsed = 100; status = some (if n == 2 then 0 else 1) }

-- It never is on.
abbrev dead : ℕ → Reply
dead n = record { elapsed = 0; status = some 1 }

power_on_test :
    power_on quiet_range true 1500 16 0 sleepy 0
    ≡ some (
        woken
          (active_source 16 0
            ∷ audio_mode 16 0
            ∷ give_power_status
            ∷ give_power_status
            ∷ give_power_status
            ∷ [])
          true
          1500)
unfolding power_on poll polls outcome
power_on_test = refl

power_on-ends_example : sends_within 34 (power_on quiet_range true 1500 16 0 dead 700) ≡ true
power_on-ends_example = power_on-ends quiet_range true 1500 16 0 dead 700
