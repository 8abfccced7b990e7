-- ===== src/Controller/Sense.antt =====
-- `Controller.tick`, lines 138-232 of src/phono_console/controller.py: the phono level, the needle
-- drop and the early activation of the direct route.
use phono_console.Base.{
  ℕ, String, Bool, true, false, not, ◌&&◌, ◌||◌, Option, none, some, List, [], ◌∷◌, ◌++◌,
  if◌then◌else◌, is_some, ℤ, pos, ◌-ℤ◌, leb_ℤ,
}
use phono_console.Policy.{Route, local_phono}
use phono_console.Detector.{ActivityDetector, update, reset_inactive, force_active, same_bool}
use phono_console.Controller.{
  Settings, Controller, Environment, Action, report_capture, healthy, failed, emit,
  needle_drop_detected, activity_changed, apply, report_router, activate_output, report,
  local_output, is_quiet, when,
}

-- The locals of `tick` that this part computes.
pub record Sensing : Type 0 where
  pub capture_ok : Bool
  pub level : ℤ
  pub transport_playing : Bool
  pub needle_drop_detected : Bool
  pub phono_active : Bool
  pub phono_signal_present : Bool

abbrev pub or_floor : Settings → Option ℤ → ℤ
or_floor s none = s.floor_dbfs
or_floor s (some v) = v

-- `not x == reported`, where nothing has been reported at first.
abbrev pub is_news : Option Bool → Bool → Bool
is_news none b = true
is_news (some a) b = not (same_bool a b)

unfoldable pub needle_drop : Settings → Environment → ActivityDetector → Option Route → Bool
needle_drop s e d route =
    is_some e.level
    && (not d.active
        && (is_quiet route
            && (not (s.has_bluetooth_is_playing && e.bluetooth_playing)
                && leb_ℤ s.needle_drop_peak_dbfs (or_floor s e.peak))))

-- The phono detector after this tick's level.
unfoldable pub detect :
    Settings → Environment → ℕ → ActivityDetector → Option Route → ActivityDetector
unfolding needle_drop
detect s e now d route =
    if is_some e.level
    then update (if needle_drop s e d route then force_active d else d) (or_floor s e.level) now
    else reset_inactive d

-- The level at which a signal counts as present, by the detector's new state.
unfoldable pub signal_present : Settings → ActivityDetector → ℤ → Bool
signal_present s d level =
    leb_ℤ (s.phono_threshold_dbfs -ℤ (if d.active then s.hysteresis_db else pos 0)) level

unfoldable pub sense : Settings → Environment → ℕ → Controller → Controller × Sensing × List Action
sense s e now c =
    let ok = is_some e.level in
    let level = or_floor s e.level in
    let needle = needle_drop s e c.detector c.route in
    let d = detect s e now c.detector c.route in
    let active = ok && d.active in
    let news = is_news c.last_reported_phono_activity active in
    (
      record c { detector = d; last_reported_phono_activity = some active },
      record {
        capture_ok = ok;
        level = level;
        transport_playing = s.has_bluetooth_is_playing && e.bluetooth_playing;
        needle_drop_detected = needle;
        phono_active = active;
        phono_signal_present = ok && (needle || signal_present s d level);
      },
      report_capture (if ok then healthy else failed)
          ∷ (when needle (emit needle_drop_detected ∷ [])
              ++ when news (emit activity_changed ∷ [])),
    )

-- What the early activation achieved.
pub record Preactivation : Type 0 where
  pub local_audio : Bool
  pub output : Bool

abbrev failed_output : Preactivation → List Action → String → Preactivation × List Action
failed_output p actions message = (p, actions ++ (report local_output failed message ∷ []))

-- Lines 217-232: the `try` block of the latency-critical path.
unfoldable pub preactivate :
    Settings → Environment → Controller → Sensing → Preactivation × List Action
preactivate s e c x =
    if x.phono_signal_present && is_quiet c.route
    then elim e.preapply_error [
      | some message ↦
          failed_output (record { local_audio = false; output = false }) (apply local_phono ∷ [])
            message
      | none ↦
          if s.has_activate_output
          then elim e.preactivate_error [
            | some message ↦
                failed_output (record { local_audio = true; output = false })
                  (apply local_phono ∷ report_router local_phono ∷ activate_output ∷ []) message
            | none ↦ (
              record { local_audio = true; output = true },
              apply local_phono ∷ report_router local_phono ∷ activate_output ∷ [],
            )
          ]
          else (
            record { local_audio = true; output = false },
            apply local_phono ∷ report_router local_phono ∷ [],
          )
    ]
    else (record { local_audio = false; output = false }, [])
