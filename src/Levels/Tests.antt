-- ===== src/Levels/Tests.antt =====
-- Tests of src/phono_console/levels.py, and the property at a concrete scale.
use phono_console.Base.{
  ◌≡◌, refl, true, false, some, [], ◌∷◌, arith, ltb, if◌then◌else◌, pos, negsuc, ◌+ℤ◌,
}
use phono_console.Base.Bytes.{to_signed}
use phono_console.Levels.{
  Scale, analyze_s16le_stereo, fresh, dbfs, peak, squares, clips, channel, frames,
}
use phono_console.Levels.Session.{IsScale, update_all, update_all-whole}

-- A coarse scale of two steps.
abbrev coarse : Scale
coarse = record {
  logarithm = λ a. if ltb a 1000 then negsuc 59 else negsuc 9;
  rms = λ total n. negsuc 119;
  floor = negsuc 119;
}

coarse-IsScale : IsScale coarse
unfolding ◌+ℤ◌
coarse-IsScale = record {
  grows = λ a b h. ground arith;
  above = λ a h. ground arith;
  below = omega arith;
}

-- A left sample at the lower rail, and a right sample of 256.
frames_test : frames (0 ∷ 128 ∷ 0 ∷ 1 ∷ []) ≡ some ((negsuc 32767, pos 256) ∷ [])
unfolding frames to_signed
frames_test = refl

analyze_test :
    analyze_s16le_stereo coarse (0 ∷ 128 ∷ 0 ∷ 1 ∷ [])
    ≡ some (record {
      left = record { peak_dbfs = pos 0; rms_dbfs = negsuc 119; clipped = true };
      right = record { peak_dbfs = negsuc 59; rms_dbfs = negsuc 119; clipped = false };
    })
unfolding analyze_s16le_stereo frames to_signed channel dbfs peak clips squares
analyze_test = refl

update_all-whole_example :
    update_all coarse
      ((pos 5 ∷ [], pos 9000 ∷ []) ∷ (negsuc 32767 ∷ pos 3 ∷ [], []) ∷ [])
      (fresh (negsuc 119))
    ≡ record {
      max_left_dbfs = pos 0;
      max_right_dbfs = negsuc 9;
      left_clipped = true;
      right_clipped = false;
    }
unfolding dbfs peak clips ◌+ℤ◌
update_all-whole_example =
    update_all-whole coarse ((pos 5 ∷ [], pos 9000 ∷ []) ∷ (negsuc 32767 ∷ pos 3 ∷ [], []) ∷ [])
      coarse-IsScale
