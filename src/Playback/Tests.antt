-- ===== src/Playback/Tests.antt =====
-- Tests of `TimestampedLocalPlayback` (src/phono_console/audio_engine_playback.py), and the property at
-- a concrete series.
use phono_console.Base.{◌+◌, ◌≡◌, refl, Bool, true, false, some, List, [], ◌∷◌, pos}
use phono_console.Amplifier.{round_div}
use phono_console.Playback.{
  initial, Frame, pump, stalled, unexpected_rate, raises, runs, async_samples_per_second,
}
use phono_console.Playback.Children.{
  Event, started, stopped, pumped, exited, launched, ended, after, held, all_piped, launched-ended,
}

abbrev frame : Bool → Frame
frame taken = record { output_rate_hz = 48000; channels = 2; taken = taken }

pump_test : pump 48000 2 (frame true ∷ frame false ∷ frame true ∷ []) ≡ (2, stalled)
unfolding pump
pump_test = refl

rate_test : pump 44100 2 (frame true ∷ []) ≡ (0, unexpected_rate 48000)
unfolding pump
rate_test = refl

correction_test : async_samples_per_second 48000 250 ≡ 12
unfolding async_samples_per_second round_div
correction_test = refl

-- The child dies, the pump fails, and a start fails before one succeeds.
abbrev troubled : List Event
troubled =
    started runs 1
    ∷ exited (pos 1)
    ∷ pumped (some "broken pipe")
    ∷ started raises 2
    ∷ started runs 3
    ∷ started runs 4
    ∷ stopped
    ∷ started runs 5
    ∷ []

troubled_test : (launched troubled initial ≡ 3) × (ended troubled initial ≡ 2)
unfolding launched ended
troubled_test = (refl, refl)

launched-ended_example :
    held initial + launched troubled initial
    ≡ held (after troubled initial) + ended troubled initial
unfolding all_piped
launched-ended_example = launched-ended troubled initial refl
