-- ===== src/Publisher/Tests.antt =====
-- Tests of `SendspinSourcePublisher` (src/phono_console/sendspin_source.py), and the properties at
-- concrete streams.
use phono_console.Base.{
  ◌≡◌, refl, true, false, none, some, List, [], ◌∷◌, arith, length, pos, ◌+ℤ◌, ◌-ℤ◌,
}
use phono_console.Policy.{phono, bluetooth}
use phono_console.Publisher.{Publisher, initial}
use phono_console.Publisher.Commands.{
  raises, sends, start_command, distribution_allowed, proceed_start, set_distribution_enabled,
}
use phono_console.Publisher.Steps.{
  Step, steps, step, started, stopped, source_distribution_set, source_wanted, connection_made,
  connection_lost, torn_down, pump_finished, retry_due,
}
use phono_console.Publisher.Steps.Sound.{is_sound, steps-is_sound}
use phono_console.Publisher.Steps.Quiet.{
  is_quiet, all_local, steps-is_quiet, start_refused, opens_none, proceed_disabled,
}
use phono_console.Publisher.Signal.Release.{silent_rounds, release_kept}
use phono_console.Publisher.Pump.{raw, stamped, at_start, stamps, micros}
use phono_console.Publisher.Pump.Timeline.{
  frames_of, unmarked, raws, offsets, stamps_grid, stamps_break,
}

abbrev booted : Publisher
booted = initial true true true none

abbrev linked : Publisher
linked = steps (connection_made ∷ []) booted

abbrev on_bluetooth : Publisher
on_bluetooth = steps (source_wanted bluetooth none ∷ []) linked

-- The capture fails twice, is retried, and then the pump ends.
abbrev a_rough_start : List Step
a_rough_start =
    connection_made
    ∷ started sends none (some "no clock")
    ∷ retry_due 0 (some "no clock")
    ∷ retry_due 0 none
    ∷ pump_finished 1 (some "PCM capture ended unexpectedly")
    ∷ retry_due 2 none
    ∷ []

rough_start_test : (steps a_rough_start booted).stream_task ≡ some 3
unfolding steps initial step
rough_start_test = refl

-- The first stream is over, and the retry is pending again.
pump_ended_test :
    (steps
      (connection_made ∷ started sends none none ∷ pump_finished 0 (some "x") ∷ [])
      booted).stream_retry_task
    ≡ some 1
unfolding steps initial step
pump_ended_test = refl

-- A stop restarts nothing; a pump that was replaced changes nothing.
stale_pump_test :
    (steps
      (connection_made
        ∷ started sends none none
        ∷ stopped
        ∷ started sends none none
        ∷ pump_finished 0 (some "x")
        ∷ [])
      booted).streaming
    ≡ true
unfolding steps initial step
stale_pump_test = refl

steps-is_sound_example : is_sound (steps a_rough_start booted) ≡ true
unfolding is_sound initial
steps-is_sound_example = steps-is_sound a_rough_start booted refl

-- A late start, its retry and a new connection.
abbrev late_start : List Step
late_start =
    started sends none none
    ∷ retry_due 1 none
    ∷ connection_lost
    ∷ torn_down
    ∷ connection_made
    ∷ source_wanted bluetooth none
    ∷ started sends none none
    ∷ []

steps-is_quiet_example :
    is_quiet
      (steps late_start (set_distribution_enabled sends false (steps a_rough_start booted)).0)
    ≡ true
unfolding all_local
steps-is_quiet_example = steps-is_quiet sends late_start (steps a_rough_start booted) refl

abbrev muted_phono : Publisher
muted_phono = steps (source_distribution_set sends phono false ∷ []) linked

start_refused_example :
    is_quiet (start_command raises none none muted_phono).0 ≡ true
    × opens_none (start_command raises none none muted_phono).1 ≡ true
unfolding distribution_allowed steps step initial
start_refused_example = start_refused raises none none muted_phono refl

proceed_disabled_example :
    (proceed_start none (set_distribution_enabled sends false on_bluetooth).0).0.streaming ≡ true
    × (proceed_start none
        (set_distribution_enabled sends false on_bluetooth).0).0.distribution_enabled
      ≡ false
unfolding steps step initial
proceed_disabled_example = proceed_disabled sends on_bluetooth refl

-- The start failed, and its retry is pending.
abbrev failing : Publisher
failing = steps (started sends none (some "no clock") ∷ []) on_bluetooth

failing_test : failing.published.stream_requested ≡ true
unfolding steps step initial
failing_test = refl

release_kept_example :
    silent_rounds 30
      (100 ∷ 110 ∷ 129 ∷ 130 ∷ 140 ∷ [])
      (record { last = some true; absent_since = none })
    ≡ true ∷ true ∷ true ∷ false ∷ false ∷ []
release_kept_example =
    release_kept 30 100 (110 ∷ 129 ∷ []) (140 ∷ []) 130 (omega arith)
      (omega arith, (omega arith, tt)) (omega arith)

stamps_grid_example :
    stamps 48000 40000
      (raws ((960, pos 1000000) ∷ (960, pos 1700000) ∷ (480, pos 1700500) ∷ []))
      at_start
    ≡ (pos 1020000 ∷ pos 1040000 ∷ pos 1060000 ∷ [], false)
unfolding offsets micros ◌+ℤ◌ ◌-ℤ◌
stamps_grid_example =
    stamps_grid 48000 40000 960 (pos 1000000) ((960, pos 1700000) ∷ (480, pos 1700500) ∷ [])

stamps_break_example :
    (stamps 48000 0
        (stamped (pos 5) 960 false ∷ stamped (pos 9) 960 true ∷ raw 960 (pos 0) ∷ [])
        at_start).1
      ≡ true
    × length
        (stamps 48000 0
          (stamped (pos 5) 960 false ∷ stamped (pos 9) 960 true ∷ raw 960 (pos 0) ∷ [])
          at_start).0
      ≡ 1
unfolding unmarked frames_of
stamps_break_example =
    stamps_break 48000 0 (stamped (pos 5) 960 false ∷ []) (raw 960 (pos 0) ∷ []) (pos 9) 960
      at_start refl (omega arith)
