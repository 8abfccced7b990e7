-- ===== src/Capture/Newest.antt =====
-- `ArecordLevelMonitor.read_pcm` (src/phono_console/alsa.py): the level that the controller gets is the
-- newest one.
use phono_console.Base.{
  ℕ, zero, suc, ◌+◌, ◌≤◌, String, ◌≡◌, refl, ap, Bool, false, Option, none, some, List, [], ◌∷◌,
  arith, length,
}
use phono_console.Levels.{StereoLevel}
use phono_console.Capture.{reap, Capture, newest, read_windows, read_pcm, accept}

-- The last of a list that is not empty.
unfoldable pub last_of : StereoLevel → List StereoLevel → StereoLevel
last_of w [] = w
last_of w (v ∷ ws) = last_of v ws

newest-last_of :
    (limit : ℕ) (w : StereoLevel) (ws : List StereoLevel)
    → length ws ≤ limit
    → newest limit w ws ≡ (length ws, last_of w ws)
unfolding newest last_of
newest-last_of zero w [] h = refl
newest-last_of zero w (v ∷ ws) h = absurd (omega arith)
newest-last_of (suc limit) w [] h = refl
newest-last_of (suc limit) w (v ∷ ws) h =
    rw (newest-last_of limit v ws (omega arith)) (ap (λ n. (n, last_of v ws)) (omega arith))

-- A read of a running child takes the newest of the windows that wait, up to the limit, and counts
-- each older one as discarded.
pub read_pcm-newest :
    (stereo : Bool) (limit now : ℕ) (start_error : Option String) (message : String)
    (w : StereoLevel) (ws : List StereoLevel) (c : Capture)
    → c.process ≡ some none
    → length ws ≤ limit
    → (read_pcm stereo limit start_error
          (record { windows = w ∷ ws; ends = false; message = message })
          now
          c).1
        ≡ some (last_of w ws)
      × (read_pcm stereo limit start_error
          (record { windows = w ∷ ws; ends = false; message = message })
          now
          c).0.discarded_windows
        ≡ c.discarded_windows + length ws
unfolding read_pcm reap read_windows accept
read_pcm-newest stereo limit now start_error message w ws c run h =
    rw (run, newest-last_of limit w ws h) (refl, refl)
