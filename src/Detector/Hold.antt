-- ===== src/Detector/Hold.antt =====
-- Debounce and hysteresis of `ActivityDetector.update` (src/phono_console/detector.py).
use phono_console.Base.{
  ℕ, ◌+◌, ◌≤◌, ◌<◌, true, not, none, some, List, [], ◌∷◌, ◌++◌, ◌≡◌, refl, ◌≢◌, arith, ltb_ℤ, ℤ,
  ◌-ℤ◌, ◌≤ℤ◌, All,
}
use phono_console.Detector.{ActivityDetector, boundary, candidate, since_or, delay, update}

-- A sequence of measurements, each with its time.
pub run : ActivityDetector → List (ℤ × ℕ) → ActivityDetector
run d [] = d
run d ((level, now) ∷ samples) = run (update d level now) samples

-- Inside the hysteresis band no sample changes the activity, and it clears a pending change.
pub update-band :
    (d : ActivityDetector) (level : ℤ) (now : ℕ)
    → d.threshold_dbfs -ℤ d.hysteresis_db ≤ℤ level
    → ltb_ℤ level d.threshold_dbfs ≡ true
    → update d level now ≡ record d { candidate_since = none }
unfolding update candidate
update-band d level now lo hi = ground arith

-- The activity changes only towards the side that the sample is on, and only once that side has
-- lasted for its delay.
pub update_flip :
    (d : ActivityDetector) (level : ℤ) (now : ℕ)
    → (update d level now).active ≢ d.active
    → (candidate d level ≡ not d.active)
      × (since_or d.candidate_since now + delay d (not d.active) ≤ now)
      × ((update d level now).candidate_since ≡ none)
unfolding update
update_flip d level now h = ground arith

-- A sample on the side that is not the present one.
abbrev pub IsOther : ActivityDetector → ℤ → Type 0
IsOther d level = candidate d level ≡ not d.active

-- A pending change, counted from `s`.
abbrev pub pending : ActivityDetector → ℕ → ActivityDetector
pending d s = record d { candidate_since = some s }

abbrev pub flipped : ActivityDetector → ActivityDetector
flipped d = record d { active = not d.active; candidate_since = none }

update-early :
    (d : ActivityDetector) (s : ℕ) (level : ℤ) (now : ℕ)
    → IsOther d level
    → now < s + delay d (not d.active)
    → update (pending d s) level now ≡ pending d s
unfolding update candidate boundary
update-early d s level now h early = ground arith

update-late :
    (d : ActivityDetector) (s : ℕ) (level : ℤ) (now : ℕ)
    → IsOther d level
    → s + delay d (not d.active) ≤ now
    → update (pending d s) level now ≡ flipped d
unfolding update candidate boundary
update-late d s level now h late = ground arith

-- Samples on the other side, all before the delay is over.
abbrev pub Early : ActivityDetector → ℕ → ℤ × ℕ → Type 0
Early d s sample = IsOther d sample.0 × (sample.1 < s + delay d (not d.active))

pub run-Early :
    (d : ActivityDetector) (s : ℕ) (samples : List (ℤ × ℕ))
    → All (Early d s) samples
    → run (pending d s) samples ≡ pending d s
unfolding run
run-Early d s [] h = refl
run-Early d s ((level, now) ∷ samples) h =
    rw (update-early d s level now h.0.0 h.0.1) (run-Early d s samples h.1)

run-append : (d : ActivityDetector) (xs ys : List (ℤ × ℕ)) → run d (xs ++ ys) ≡ run (run d xs) ys
unfolding run
run-append d [] ys = refl
run-append d ((level, now) ∷ xs) ys = run-append (update d level now) xs ys

update-first :
    (d : ActivityDetector) (s : ℕ) (level : ℤ)
    → d.candidate_since ≡ none
    → 0 < delay d (not d.active)
    → IsOther d level
    → update d level s ≡ pending d s
unfolding update candidate boundary
update-first d s level settled positive h = ground arith

-- A settled detector with a positive delay that hears only the other side from time `s` on keeps its
-- activity as long as the samples are before the end of the delay, and flips at a sample from then
-- on.
pub run_debounce :
    (d : ActivityDetector) (s now : ℕ) (first last : ℤ) (samples : List (ℤ × ℕ))
    → d.candidate_since ≡ none
    → 0 < delay d (not d.active)
    → IsOther d first
    → All (Early d s) samples
    → IsOther d last
    → s + delay d (not d.active) ≤ now
    → ((run d ((first, s) ∷ samples)).active ≡ d.active)
      × (run d ((first, s) ∷ (samples ++ (last, now) ∷ [])) ≡ flipped d)
unfolding run
run_debounce d s now first last samples settled positive h early l late =
    let begun = update-first d s first settled positive h in
    (
      rw (run, begun) (rw (run-Early d s samples early)),
      rw (run, begun)
          (rw (run-append, run-Early d s samples early) (update-late d s last now l late)),
    )

-- One sample on the present side starts the count anew: whatever was pending is forgotten.
pub update-same :
    (d : ActivityDetector) (level : ℤ) (now : ℕ)
    → candidate d level ≡ d.active
    → update d level now ≡ record d { candidate_since = none }
unfolding update
update-same d level now h = ground arith
