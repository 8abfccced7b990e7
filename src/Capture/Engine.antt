-- ===== src/Capture/Engine.antt =====
-- src/phono_console/audio_engine_monitor.py: `TimestampedLevelMonitor`, which measures the engine's
-- shared frames. A frame is known by what `analyze_s16le_stereo` says of it.
use phono_console.Base.{
  ℕ, String, ◌≡◌, refl, ◌≢◌, Bool, true, false, not, ◌&&◌, Option, none, some, List, [], ◌∷◌, arith,
  if◌then◌else◌, is_some, ℤ,
}
use phono_console.Levels.{StereoLevel, LevelSession, fresh, update, max_ℤ}

pub record Monitor : Type 0 where
  pub has_frames : Bool
  pub latest : Option StereoLevel
  pub session : LevelSession
  pub last_sample_at : Option ℕ
  pub last_error : Option String

-- `__init__`
abbrev pub initial : ℤ → Monitor
initial floor = record {
  has_frames = false;
  latest = none;
  session = fresh floor;
  last_sample_at = none;
  last_error = none;
}

-- What the stream gives: a stereo frame, a mono frame with its level, an exception with its message,
-- or the cancellation of the reader.
pub data Next : Type 0 where
  stereo : StereoLevel → Next
  mono : ℤ → Next
  failed : String → Next
  cancelled : Next

pub data Effect : Type 0 where
  stream_closed capture_started capture_recovered : Effect

-- The state after a frame, and its event.
unfoldable pub heard : ℕ → Monitor → Monitor × List Effect
heard now m = (
  record m { last_sample_at = some now; last_error = none },
  if not (is_some m.last_sample_at)
      then capture_started ∷ []
      else (if is_some m.last_error then capture_recovered ∷ [] else []),
)

-- `level_dbfs`: the level, or an exception.
unfoldable pub level_dbfs : Next → ℕ → Monitor → Monitor × Option ℤ × List Effect
unfolding heard update
level_dbfs (stereo level) now m =
    let (m', effects) = heard now (record m { has_frames = true }) in
    (
      record m' { latest = some level; session = update level m.session },
      some (max_ℤ level.left.rms_dbfs level.right.rms_dbfs),
      effects,
    )
level_dbfs (mono level) now m =
    let (m', effects) = heard now (record m { has_frames = true }) in (m', some level, effects)
level_dbfs (failed message) now m =
    (record m { has_frames = false; last_error = some message }, none, [])
level_dbfs cancelled now m = (record m { has_frames = false }, none, stream_closed ∷ [])

-- The first line of `health`: whether the monitor is ok.
unfoldable pub is_ok : Monitor → Bool
is_ok m = is_some m.last_sample_at && not (is_some m.last_error)

-- After a read, and whatever went before, the monitor is ok exactly if the read gave a level, unless
-- the read was cancelled, which leaves it as it was.
pub level_dbfs-is_ok :
    (next : Next) (now : ℕ) (m : Monitor)
    → ((level_dbfs next now m).1 ≢ none → is_ok (level_dbfs next now m).0 ≡ true)
      × (next ≢ cancelled
          → (level_dbfs next now m).1 ≡ none
          → is_ok (level_dbfs next now m).0 ≡ false)
      × (next ≡ cancelled → is_ok (level_dbfs next now m).0 ≡ is_ok m)
unfolding level_dbfs heard is_ok
level_dbfs-is_ok (stereo level) now m = ((λ h. refl), (λ a h. ground arith), λ h. ground arith)
level_dbfs-is_ok (mono level) now m = ((λ h. refl), (λ a h. ground arith), λ h. ground arith)
level_dbfs-is_ok (failed message) now m =
    ((λ h. ground arith), (λ a h. ground arith), λ h. ground arith)
level_dbfs-is_ok cancelled now m = ((λ h. ground arith), (λ a h. ground arith), λ h. refl)
