-- ===== src/Levels.antt =====
-- src/phono_console/levels.py: the levels of stereo PCM and their maxima over a session.
--
-- A level in dB is an integer in a fixed fraction of a decibel; the logarithm is a parameter, and so is
-- the level of the root mean square, a float of the sum of squares and the number of samples.
pub mod Session
mod Tests
use phono_console.Base.{
  ℕ, zero, suc, ◌+◌, ◌-◌, ◌*◌, ◌/◌, ◌%◌, ◌^◌, ◌≤◌, ◌<◌, String, ◌≡◌, refl, sym, ap, ◌∙◌, subst, ◌≢◌,
  ◌↔◌, ◌⊎◌, inl, inr, Bool, true, false, not, ◌&&◌, ◌||◌, Option, none, some, List, [], ◌∷◌, ◌++◌,
  map, arith, ltb, leb, ◌==◌, if◌then◌else◌, leb→le, ==_iff, Bool-cases, Option-cases, is_some,
  length, take, drop, length-append, length-drop, All, All-append, take-append, drop-append,
  take-append-drop, length-take, take-add, take_last, drop-append_le, drop-drop, take_last-append,
  All-take, All-drop, ℤ, pos, negsuc, pos_part, neg_part, sub_ℕ, ◌+ℤ◌, ◌-ℤ◌, ◌≤ℤ◌, leb_ℤ, ltb_ℤ,
  +ℤ_parts, -ℤ_parts, eq_of_parts, int_laws,
}
use Prim.Native.Nat.{max}
use phono_console.Base.Bytes.{to_signed}

pub record ChannelLevel : Type 0 where
  pub peak_dbfs : ℤ
  pub rms_dbfs : ℤ
  pub clipped : Bool

pub record StereoLevel : Type 0 where
  pub left : ChannelLevel
  pub right : ChannelLevel

-- The logarithm of an amplitude, the level of a root mean square, and -120 dB.
pub record Scale : Type 0 where
  pub logarithm : ℕ → ℤ
  pub rms : ℕ → ℕ → ℤ
  pub floor : ℤ

abbrev pub min_ℤ : ℤ → ℤ → ℤ
min_ℤ a b = if leb_ℤ a b then a else b

abbrev pub max_ℤ : ℤ → ℤ → ℤ
max_ℤ a b = if leb_ℤ a b then b else a

-- `_dbfs` at an amplitude that is an integer.
unfoldable pub dbfs : Scale → ℕ → ℤ
dbfs x amplitude =
    if amplitude == 0
    then x.floor
    else (if leb 32767 amplitude then pos 0 else min_ℤ (pos 0) (x.logarithm amplitude))

-- `abs`
abbrev pub magnitude : ℤ → ℕ
magnitude (pos n) = n
magnitude (negsuc n) = n + 1

unfoldable pub peak : List ℤ → ℕ
peak [] = 0
peak (v ∷ vs) = max (magnitude v) (peak vs)

unfoldable pub squares : List ℤ → ℕ
squares [] = 0
squares (v ∷ vs) = magnitude v * magnitude v + squares vs

abbrev is_rail : ℤ → Bool
is_rail (pos n) = n == 32767
is_rail (negsuc n) = n == 32767

-- A sample at one of the rails, -32768 or 32767.
unfoldable pub clips : List ℤ → Bool
clips [] = false
clips (v ∷ vs) = is_rail v || clips vs

unfoldable pub channel : Scale → List ℤ → ChannelLevel
unfolding dbfs peak squares clips
channel x vs = record {
  peak_dbfs = dbfs x (peak vs);
  rms_dbfs = x.rms (squares vs) (length vs);
  clipped = clips vs;
}

-- The left and right samples of whole frames of four bytes, little-endian.
unfoldable pub frames : List ℕ → Option (List (ℤ × ℤ))
frames [] = some []
frames (a ∷ b ∷ c ∷ d ∷ rest) = elim (frames rest) [
  | none ↦ none
  | some fs ↦ some ((to_signed 2 (a + 256 * b), to_signed 2 (c + 256 * d)) ∷ fs)
]
frames _ = none

abbrev pub is_empty {ℓ} : {A : Type ℓ} → List A → Bool
is_empty [] = true
is_empty _ = false

-- `analyze_s16le_stereo`; `none` is the `ValueError`.
unfoldable pub analyze_s16le_stereo : Scale → List ℕ → Option StereoLevel
unfolding frames channel
analyze_s16le_stereo x pcm = if is_empty pcm then none else elim (frames pcm) [
  | none ↦ none
  | some fs ↦
      some (record { left = channel x (map (λ f. f.0) fs); right = channel x (map (λ f. f.1) fs) })
]

pub record LevelSession : Type 0 where
  pub max_left_dbfs : ℤ
  pub max_right_dbfs : ℤ
  pub left_clipped : Bool
  pub right_clipped : Bool

-- A new session, and `reset`.
abbrev pub fresh : ℤ → LevelSession
fresh floor = record {
  max_left_dbfs = floor;
  max_right_dbfs = floor;
  left_clipped = false;
  right_clipped = false;
}

-- `LevelSession.update`
unfoldable pub update : StereoLevel → LevelSession → LevelSession
update level s = record {
  max_left_dbfs = max_ℤ s.max_left_dbfs level.left.peak_dbfs;
  max_right_dbfs = max_ℤ s.max_right_dbfs level.right.peak_dbfs;
  left_clipped = s.left_clipped || level.left.clipped;
  right_clipped = s.right_clipped || level.right.clipped;
}
