-- ===== src/Detector.antt =====
-- src/phono_console/detector.py: debounced activity with hysteresis.
--
-- Levels are integers in a fixed fraction of a decibel (the source's floats), times are
-- naturals in a fixed fraction of a second (`time.monotonic()` never goes below its origin).
-- `now - since >= delay` is written `since + delay ≤ now`, which is the same test without a
-- subtraction that would stop at 0.
pub mod Hold
pub mod Tests
use phono_console.Base.{
  ℕ, ◌+◌, Bool, true, false, Option, none, some, leb, if◌then◌else◌, ℤ, ◌-ℤ◌, leb_ℤ,
}

pub record ActivityDetector : Type 0 where
  pub threshold_dbfs : ℤ
  pub attack : ℕ
  pub release : ℕ
  pub hysteresis_db : ℤ
  pub active : Bool
  pub candidate_since : Option ℕ

-- The level from which a sample counts as loud, in the detector's present state.
unfoldable pub boundary : ActivityDetector → ℤ
boundary d = if d.active then d.threshold_dbfs -ℤ d.hysteresis_db else d.threshold_dbfs

unfoldable pub candidate : ActivityDetector → ℤ → Bool
unfolding boundary
candidate d level = leb_ℤ (boundary d) level

abbrev pub same_bool : Bool → Bool → Bool
same_bool true b = b
same_bool false true = false
same_bool false false = true

abbrev pub since_or : Option ℕ → ℕ → ℕ
since_or none now = now
since_or (some s) now = s

-- How long the other side must last before the detector flips to `c`.
abbrev pub delay : ActivityDetector → Bool → ℕ
delay d c = if c then d.attack else d.release

-- `update` returns `self.active`, which is the field of the new state.
unfoldable pub update : ActivityDetector → ℤ → ℕ → ActivityDetector
update d level now =
    let c = candidate d level in
    let since = since_or d.candidate_since now in
    if same_bool c d.active
    then record d { candidate_since = none }
    else (if leb (since + delay d c) now
        then record d { active = c; candidate_since = none }
        else record d { candidate_since = some since })

-- Immediately clear activity when the input measurement is invalid.
unfoldable pub reset_inactive : ActivityDetector → ActivityDetector
reset_inactive d = record d { active = false; candidate_since = none }

-- Latch activity immediately after an independent wake trigger.
unfoldable pub force_active : ActivityDetector → ActivityDetector
force_active d = record d { active = true; candidate_since = none }
