-- ===== src/Publisher/Pump.antt =====
-- `SendspinSourcePublisher._pump` (src/phono_console/sendspin_source.py): the activity that it
-- measures, and the timestamp of each block that it sends. The limiter changes the samples of a
-- block and not their number.
pub mod Timeline
use phono_console.Base.{
  ℕ, ◌+◌, ◌*◌, ◌/◌, Bool, true, false, not, ◌&&◌, ◌||◌, Option, none, some, List, [], ◌∷◌, ltb,
  if◌then◌else◌, ℤ, pos, ◌+ℤ◌, ◌-ℤ◌,
}
use phono_console.Policy.{phono, is_source}
use phono_console.Detector.{update, same_bool}
use phono_console.Publisher.{Publisher, Act, publish, activity_changed}

-- `_observe_stream_activity`, given the level of the block.
unfoldable pub observe_stream_activity : ℤ → ℕ → Act
unfolding publish
observe_stream_activity level now p =
    if not (is_source p.selected_source phono) then (p, []) else elim p.detector [
      | none ↦ (p, [])
      | some d ↦
          let d' = update d level now in
          let p' = record p {
            detector = some d';
            activity_level_dbfs = level;
            activity_updated_at = some now;
            activity_seen_present = p.activity_seen_present || d'.active;
          } in
          if same_bool d'.active d.active
          then (p', [])
          else (let (p'', effects) = publish p' in (p'', activity_changed d'.active ∷ effects))
    ]

-- The end of `_feed`, when the write has gone through.
unfoldable pub feed_completed : ℕ → Publisher → Publisher
feed_completed now p = record p { last_feed_completed_at = some now }

pub data Chunk : Type 0 where
  -- A raw block of this many frames, and the clock in microseconds when it was read.
  raw : ℕ → ℤ → Chunk
  -- An engine frame: the time of its first sample, its frames and its discontinuity mark.
  stamped : ℤ → ℕ → Bool → Chunk

-- The locals of `_pump`: `capture_anchor_us` and `captured_frames`.
pub record Position : Type 0 where
  pub anchor : Option ℤ
  pub captured : ℕ

abbrev pub at_start : Position
at_start = record { anchor = none; captured = 0 }

-- The duration of this many frames in microseconds.
unfoldable pub micros : ℕ → ℕ → ℕ
micros rate frames = frames * 1000000 / rate

-- The first sample of the block was captured before the clock was read, by the block's duration.
unfoldable pub anchor_of : ℕ → ℕ → Option ℤ → ℕ → ℤ → ℤ
anchor_of rate lead (some a) frames clock = a
anchor_of rate lead none frames clock = clock -ℤ pos (micros rate frames) +ℤ pos lead

-- A block's timestamp and the new position; `none` is the exception at a discontinuity.
unfoldable pub stamp : ℕ → ℕ → Chunk → Position → Option (ℤ × Position)
stamp rate lead (raw frames clock) s =
    let a = anchor_of rate lead s.anchor frames clock in
    some (
      a +ℤ pos (micros rate s.captured),
      record { anchor = some a; captured = s.captured + frames },
    )
stamp rate lead (stamped time frames marked) s =
    if marked && ltb 0 s.captured
    then none
    else some (time +ℤ pos lead, record s { captured = s.captured + frames })

-- The loop: the timestamps of the blocks that were sent, and whether a discontinuity ended it.
unfoldable pub stamps : ℕ → ℕ → List Chunk → Position → List ℤ × Bool
stamps rate lead [] s = ([], false)
stamps rate lead (c ∷ cs) s = elim (stamp rate lead c s) [
  | none ↦ ([], true)
  | some (t, s') ↦ let (rest, broken) = stamps rate lead cs s' in (t ∷ rest, broken)
]
