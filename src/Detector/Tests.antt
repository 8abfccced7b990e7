-- ===== src/Detector/Tests.antt =====
-- Tests of src/phono_console/detector.py, and the properties at a concrete detector.
use phono_console.Base.{◌≡◌, refl, true, false, none, [], ◌∷◌, arith, ℤ, pos, negsuc}
use phono_console.Detector.{ActivityDetector, update, boundary, candidate}
use phono_console.Detector.Hold.{run, run_debounce, flipped}

-- Threshold -45 dB, attack 2, release 10, hysteresis 3.
abbrev silent : ActivityDetector
silent = record {
  threshold_dbfs = negsuc 44;
  attack = 2;
  release = 10;
  hysteresis_db = pos 3;
  active = false;
  candidate_since = none;
}

abbrev playing : ActivityDetector
playing = record silent { active = true }

abbrev loud : ℤ
loud = negsuc 29

-- -47 dB, inside the band.
abbrev between : ℤ
between = negsuc 46

attack_test : (update (update silent loud 5) loud 7).active ≡ true
unfolding update candidate boundary
attack_test = refl

too_early_test : (update (update silent loud 5) loud 6).active ≡ false
unfolding update candidate boundary
too_early_test = refl

run_debounce_example :
    ((run silent ((loud, 5) ∷ (loud, 6) ∷ [])).active ≡ false)
    × (run silent ((loud, 5) ∷ (loud, 6) ∷ (loud, 7) ∷ []) ≡ flipped silent)
unfolding candidate boundary
run_debounce_example =
    run_debounce silent 5 7 loud loud ((loud, 6) ∷ []) refl (omega arith) refl
      ((refl, omega arith), tt) refl (omega arith)
