-- ===== src/Capture/Tests.antt =====
-- Tests of `ArecordLevelMonitor` (src/phono_console/alsa.py), and the properties at concrete reads.
use phono_console.Base.{◌≡◌, refl, Bool, true, false, none, some, List, [], ◌∷◌, arith, ℤ, negsuc}
use phono_console.Levels.{StereoLevel}
use phono_console.Capture.{
  Capture, initial, Pipe, read_pcm, reap, read_windows, record_failure, accept, newest, spawned,
  capture_started,
}
use phono_console.Capture.Failures.{Read, after_reads, all_idle, spawns, read_pcm-waits}

abbrev level : ℤ → StereoLevel
level v = record {
  left = record { peak_dbfs = v; rms_dbfs = v; clipped = false };
  right = record { peak_dbfs = v; rms_dbfs = v; clipped = false };
}

abbrev pipe : List StereoLevel → Bool → Pipe
pipe ws over = record { windows = ws; ends = over; message = "device unplugged" }

abbrev idle : Capture
idle = initial (negsuc 119)

abbrev recording : Capture
recording = record idle { process = some none }

start_test :
    (read_pcm true 600 none (pipe (level (negsuc 29) ∷ []) false) 10 idle).2
    ≡ spawned ∷ capture_started ∷ []
unfolding read_pcm reap read_windows accept newest
start_test = refl

-- The first failure was reported.
abbrev refused : Capture
refused = (read_pcm true 600 (some "busy") (pipe [] false) 10 idle).0

-- The child has ended at a read at 10.
abbrev ended : Capture
ended = (read_pcm true 600 none (pipe [] true) 10 recording).0

-- Reads before the delay is over, at which a child could start and bring a window.
abbrev early : List Read
early =
    (200, none, pipe (level (negsuc 9) ∷ []) false)
    ∷ (509, none, pipe (level (negsuc 9) ∷ []) false)
    ∷ []

read_pcm-waits_example :
    (all_idle true 600 early ended ≡ true)
    × (spawns (read_pcm true 600 none (pipe [] false) 510 (after_reads true 600 early ended)).2
        ≡ true)
unfolding read_pcm reap read_windows record_failure
read_pcm-waits_example =
    read_pcm-waits true 600 10 510 none (pipe [] true) (pipe [] false) early recording refl refl
      (omega arith)
