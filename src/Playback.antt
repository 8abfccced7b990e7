-- ===== src/Playback.antt =====
-- src/phono_console/audio_engine_playback.py: `TimestampedLocalPlayback`, which renders engine frames
-- through aplay.
--
-- The child and the frame stream are outside: the result of a start, the frames and whether a write is
-- taken in time are arguments.
pub mod Children
mod Tests
use Prim.Native.Nat.{max}
use phono_console.Base.{
  ℕ, zero, suc, ◌+◌, ◌-◌, ◌*◌, ◌/◌, ◌%◌, ◌^◌, ◌≤◌, ◌<◌, String, ◌≡◌, refl, sym, ap, ◌∙◌, subst, ◌≢◌,
  ◌↔◌, ◌⊎◌, inl, inr, Bool, true, false, not, ◌&&◌, ◌||◌, Option, none, some, List, [], ◌∷◌, ◌++◌,
  map, arith, ltb, leb, ◌==◌, if◌then◌else◌, leb→le, ==_iff, Bool-cases, Option-cases, is_some,
  length, take, drop, length-append, length-drop, All, All-append, take-append, drop-append,
  take-append-drop, length-take, take-add, take_last, drop-append_le, drop-drop, take_last-append,
  All-take, All-drop, ℤ, pos, negsuc, pos_part, neg_part, sub_ℕ, ◌+ℤ◌, ◌-ℤ◌, ◌≤ℤ◌, leb_ℤ, ltb_ℤ,
  +ℤ_parts, -ℤ_parts, eq_of_parts, int_laws,
}
use phono_console.Amplifier.{round_div}

pub record Playback : Type 0 where
  -- The child, and its return code when it has ended.
  pub process : Option (Option ℤ)
  -- The pump task, and whether it is done.
  pub pump_task : Option Bool
  pub last_error : Option String
  pub started_at : Option ℕ

-- `__init__`
abbrev pub initial : Playback
initial = record { process = none; pump_task = none; last_error = none; started_at = none }

-- `async_samples_per_second`
unfoldable pub async_samples_per_second : ℕ → ℕ → ℕ
unfolding round_div
async_samples_per_second sample_rate ppm = max 1 (round_div (sample_rate * ppm) 1000000)

unfoldable pub running : Playback → Bool
running p =
    elim p.process [ some none ↦ true | _ ↦ false ]
    && elim p.pump_task [ some false ↦ true | _ ↦ false ]

pub data Effect : Type 0 where
  spawned process_started process_stopped terminated : Effect
  process_failed : String → Effect

-- How a start of the child goes: it raises, the child has no input, or it runs.
pub data Launch : Type 0 where
  raises without_input runs : Launch

-- `stop`
unfoldable pub stop : Playback → Playback × List Effect
stop p = elim p.process [
  | none ↦ (record p { pump_task = none; started_at = none }, [])
  | some code ↦ (
    record p { process = none; pump_task = none; last_error = none; started_at = none },
    (if is_some code then [] else terminated ∷ []) ++ (process_stopped ∷ []),
  )
]

launch : Launch → ℕ → Playback → Playback × Bool × List Effect
launch raises now p = (p, true, [])
launch without_input now p = (record p { process = none }, true, spawned ∷ [])
launch runs now p = (
  record p {
    process = some none;
    pump_task = some false;
    last_error = none;
    started_at = some now;
  },
  false,
  spawned ∷ process_started ∷ [],
)

-- `start`, and whether it raised. An output that is dead or stalled is stopped first.
unfoldable pub start : Launch → ℕ → Playback → Playback × Bool × List Effect
unfolding running stop launch
start outcome now p =
    if running p
    then (p, false, [])
    else (let (p', stopped) =
          if is_some p.pump_task || is_some p.process then stop p else (p, []) in
        let (p'', raised, effects) = launch outcome now p' in (p'', raised, stopped ++ effects))

-- A frame's rate and channels, and whether its write is taken in time.
pub record Frame : Type 0 where
  pub output_rate_hz : ℕ
  pub channels : ℕ
  pub taken : Bool

pub data PumpEnd : Type 0 where
  -- The stream is over, or the child is gone.
  finished : PumpEnd
  unexpected_rate unexpected_channels : ℕ → PumpEnd
  stalled : PumpEnd

-- The loop of `_pump` while the child is held: the frames that were written, and its end.
unfoldable pub pump : ℕ → ℕ → List Frame → ℕ × PumpEnd
pump rate channels [] = (0, finished)
pump rate channels (f ∷ fs) =
    let rest = pump rate channels fs in
    if not (f.output_rate_hz == rate)
    then (0, unexpected_rate f.output_rate_hz)
    else (if not (f.channels == channels)
        then (0, unexpected_channels f.channels)
        else (if f.taken then (rest.0 + 1, rest.1) else (1, stalled)))

-- The end of `_pump` with an exception, or without.
unfoldable pub pump_ended : Option String → Playback → Playback × List Effect
pump_ended none p =
    (record p { pump_task = elim p.pump_task [ none ↦ none | some d ↦ some true ] }, [])
pump_ended (some message) p = (
  record p {
    pump_task = elim p.pump_task [ none ↦ none | some d ↦ some true ];
    last_error = some message;
  },
  process_failed message ∷ [],
)
