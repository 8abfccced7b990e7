-- ===== src/Controller/Bluetooth.antt =====
-- `Controller.tick`, lines 281-331 of src/phono_console/controller.py: Bluetooth activity, which
-- is not sampled while a phono signal is present.
use phono_console.Base.{
  ℕ, String, ◌⊎◌, inl, inr, Bool, true, false, not, ◌||◌, List, [], ◌∷◌, if◌then◌else◌, ℤ,
}
use phono_console.Detector.{update, reset_inactive, force_active}
use phono_console.Controller.{
  Settings, Controller, Environment, Action, healthy, degraded, report, bluetooth_audio,
}
use phono_console.Controller.Sense.{Sensing}

pub record Listening : Type 0 where
  pub level : ℤ
  pub active : Bool
  pub pcm_ready : Bool
  pub capture_ok : Bool

-- The outcome of the level monitor: a level, or the message of its failure.
sample :
    Settings
    → Environment
    → ℕ
    → Bool
    → ℤ ⊎ String
    → Controller
    → Controller × Listening × List Action
sample s e now transport (inr message) c = (
  record c {
    bluetooth_detector =
        if transport
        then force_active c.bluetooth_detector
        else reset_inactive c.bluetooth_detector;
  },
  record { level = s.floor_dbfs; active = transport; pcm_ready = false; capture_ok = false },
  report bluetooth_audio degraded message ∷ [],
)
sample s e now transport (inl level) c =
    let d = update c.bluetooth_detector level now in
    let active = transport || d.active in
    (
      record c { bluetooth_detector = if transport then force_active d else d },
      record {
        level = level;
        active = active;
        pcm_ready = not s.has_bluetooth_is_playing || e.bluetooth_playing_later;
        capture_ok = true;
      },
      report bluetooth_audio healthy (if active then "streaming" else "connected or idle") ∷ [],
    )

unfoldable pub listen :
    Settings → Environment → ℕ → Controller → Sensing → Controller × Listening × List Action
unfolding sample
listen s e now c x =
    let unheard : Listening = record {
      level = s.floor_dbfs;
      active = x.transport_playing;
      pcm_ready = false;
      capture_ok = s.has_bluetooth_monitor;
    } in
    if x.phono_signal_present
    then (
      record c { bluetooth_detector = reset_inactive c.bluetooth_detector },
      unheard,
      report bluetooth_audio healthy "monitoring paused while phono is active" ∷ [],
    )
    else (if s.has_bluetooth_monitor
        then sample s e now x.transport_playing e.bluetooth_level c
        else (c, unheard, []))
